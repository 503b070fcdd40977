-- ===== src/Session/Tests.antt =====
-- Two sessions, and the theorems at them.
use secoli_sced.Base.{
  ℕ, ◌≡◌, refl, arith, true, false, List, [], ◌∷◌, map, none, some, pos, minus_one,
}
use mathlib.Core.Option.{map as option_map}
use secoli_sced.Queue.Find.{Found}
use secoli_sced.Queue.Glib.{list_queue}
use secoli_sced.Queue.Holds.{holds}
use secoli_sced.Queue.Walk.{split_first}
use secoli_sced.Session.Ids.{session_id_to_string-session_string_to_id, sessions_find_by_id-Found}
use secoli_sced.Session.List.{Pointed, session_at, id_at, sessions_find_by_id}
use secoli_sced.Session.{Session, session_id_to_string, session_string_to_id}

abbrev session : ℕ → Session list_queue
session n = record {
  id = n;
  search_of = none;
  cod_state = minus_one;
  territorial_competence = false;
  destroy = pos 0;
  province = none;
}

session_id_to_string-session_string_to_id_example :
    option_map
      (option_map (λ str. session_string_to_id (some str)))
      (session_id_to_string list_queue true (some (session 4000000000)))
    ≡ some (some 4000000000)
session_id_to_string-session_string_to_id_example =
    session_id_to_string-session_string_to_id list_queue (session 4000000000) (omega arith)

abbrev two : List (Pointed list_queue)
two = session_at (session 0) ∷ session_at (session 1) ∷ []

sessions_find_by_id-Found_example :
    Found
      (list_queue (Pointed list_queue))
      []
      (id_at 1)
      two
      (some (session_at (session 0) ∷ [], session_at (session 1), []))
      (sessions_find_by_id list_queue
        (list_queue (Pointed list_queue))
        (some (record { queue = map some two; position = pos 0 }))
        1)
unfolding split_first
sessions_find_by_id-Found_example =
    sessions_find_by_id-Found list_queue (list_queue (Pointed list_queue)) 1
      (record { queue = map some two; position = pos 0 }) [] (session_at (session 0))
      (session_at (session 1) ∷ []) (holds refl refl (omega arith) (omega arith))
