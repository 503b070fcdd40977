-- ===== src/Session/Ids.antt =====
-- The ids of sessions: printing and reading them, and finding a session by its id.
use secoli_sced.Base.{
  Bytes, ℕ, zero, suc, ◌+◌, ◌-◌, ◌%◌, ◌^◌, ◌≤◌, ◌<◌, ◌≡◌, refl, ap, ◌∙◌, sym, fun_ext, Bool, true,
  false, not, ◌&&◌, List, [], ◌∷◌, ◌++◌, Option, none, some, arith, length, take, take_all, ◌==◌,
  if◌then◌else◌, pos,
}
use mathlib.Core.Option.{map as option_map}
use secoli_sced.Clib.{decimal, atoi}
use secoli_sced.Clib.Decimal.{atol-decimal, to_uint-int_of, length-decimal}
use secoli_sced.Queue.Find.{Found, queue_find-Found}
use secoli_sced.Queue.Glib.{GQueue}
use secoli_sced.Queue.Holds.{Holds}
use secoli_sced.Queue.Walk.{split_first}
use secoli_sced.Queue.{Queue}
use secoli_sced.Search.{Glib}
use secoli_sced.Session.List.{
  Pointed, id_at, id_read, session_compare_id, has_id, sessions_find_by_id,
}
use secoli_sced.Session.{
  Session, unset_session_id, compare_ids, session_id_to_string, session_string_to_id,
}

read_back : (n : ℕ) → n < 2 ^ 32 → session_string_to_id (some (take 30 (decimal n))) ≡ n
unfolding session_string_to_id atoi
read_back n l =
    rw (take_all 30 (decimal n) (omega (arith, length-decimal n l)), atol-decimal n (omega arith))
      (to_uint-int_of n l)

-- `session_string_to_id` reads back what `session_id_to_string` prints of a session, whatever its
-- id: the buffer of 31 bytes is long enough.
pub session_id_to_string-session_string_to_id :
    (G : Glib) (s : Session G)
    → s.id < 2 ^ 32
    → option_map
        (option_map (λ str. session_string_to_id (some str)))
        (session_id_to_string G true (some s))
      ≡ some (some s.id)
unfolding session_id_to_string
session_id_to_string-session_string_to_id G s l = ap (λ n. some (some n)) (read_back s.id l)

-- The node has the id, and that is not UNSET_SESSION_ID.
abbrev pub is_session : {G : Glib} → ℕ → Pointed G → Bool
is_session {G} id n = id_read G n == id && not (id == unset_session_id)

compare-test :
    (a b : ℕ)
    → secoli_sced.Base.eqb_ℤ (compare_ids a b) (pos 0) ≡ (a == b && not (b == unset_session_id))
unfolding compare_ids
compare-test a b = ground arith

-- `sessions_find_by_id`, with the list's cursor on the node `y`, moves the cursor to the first
-- session from there on with the id; if there is one, what it returns is not that session but the
-- pointer to its own argument.
pub sessions_find_by_id-Found :
    (G : Glib) (L : GQueue (Pointed G)) (id : ℕ) (q : Queue L) (xs : List (Pointed G))
    (y : Pointed G) (ys : List (Pointed G))
    → Holds L (xs ++ y ∷ ys) (pos (length xs)) (some q)
    → Found L xs
        (id_at id)
        (y ∷ ys)
        (split_first (is_session id) (y ∷ ys))
        (sessions_find_by_id G L (some q) id)
unfolding sessions_find_by_id session_compare_id
sessions_find_by_id-Found G L id q xs y ys h =
    rw (sym (fun_ext (λ n. compare-test (id_read G n) id)))
      (queue_find-Found L (has_id G L) (id_at id) (some q) xs y ys h)
