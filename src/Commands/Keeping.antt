-- ===== src/Commands/Keeping.antt =====
-- What the commands that search keep.
pub mod Plain
use secoli_sced.Action.{Action, pure, fault, gets, modify, bind, ◌>>=◌, ◌>>◌}
use secoli_sced.Base.{
  Bytes, ℕ, ◌+◌, zero, suc, refl, sym, Bool, true, false, List, [], ◌∷◌, Option, none, some, ℤ, pos,
}
use mathlib.Core.List.{append-nil}
use secoli_sced.Client.{Client}
use secoli_sced.Commands.Slurp.{slurp_and_set_options}
use secoli_sced.Commands.Finding.{
  get_effective_session, create_search, destroy_search, execute_search, on_search,
  client_run_output_handler, print_search_result_count, print_search_result, dump_handler,
  fetch_handler, options_of, by_clause, refresh_and_execute, find_by, find_get_handler,
  find_handler, get_handler,
}
use secoli_sced.Options.Keeping.{option_set-IsKept, option_get-IsKept, options_list-IsKept}
use secoli_sced.ConsularDistrict.{ConsularDistrict}
use secoli_sced.Sce.{Sce}
use secoli_sced.Search.{Search, Glib}
use secoli_sced.World.Kept.{
  keeps, IsKept, Kept, kept, refl-Kept, set_client-Kept, alike, modify-IsKept, bind-IsKept,
  if-IsKept, pure-IsKept,
}
use secoli_sced.World.{World, Host, SessionArg, Do}
use secoli_sced.Xsqlite.{Sqlite}

module _ (S : Sqlite) (G : Glib) (H : Host G) where
  pub slurp-IsKept :
      (argv : List Bytes) (s : SessionArg G) (scope : ℕ)
      → IsKept S G (slurp_and_set_options S G H argv s scope)
  unfolding slurp_and_set_options
  slurp-IsKept [] s scope = search keeps
  slurp-IsKept (cmd ∷ []) s scope = search keeps
  slurp-IsKept (cmd ∷ value ∷ []) s scope = search (keeps, option_set-IsKept) depth 14
  slurp-IsKept (cmd ∷ value ∷ a ∷ []) s scope = search (keeps, option_set-IsKept) depth 14
  slurp-IsKept (cmd ∷ value ∷ a ∷ b ∷ argv) s scope =
      let others = slurp-IsKept (b ∷ argv) s scope in
      bind-IsKept S G _ _ (option_set-IsKept S G H cmd value s scope) λ status.
        if-IsKept S G _ _ _ (pure-IsKept S G 0) (
          if-IsKept S G _ _ _ (bind-IsKept S G _ _ others λ used. pure-IsKept S G (used + 3))
            (pure-IsKept S G 2))

  pub create_search-IsKept : (s : SessionArg G) → IsKept S G (create_search S G H s)
  unfolding create_search
  create_search-IsKept s = search keeps depth 14

  pub destroy_search-IsKept : (s : SessionArg G) → IsKept S G (destroy_search S G H s)
  unfolding destroy_search
  destroy_search-IsKept s = search keeps depth 14

  set_sce-IsKept :
      (sce' : Sce S (G ConsularDistrict)) → IsKept S G (modify λ w. record w { sce = sce' })
  set_sce-IsKept sce' = modify-IsKept S G _ λ w. kept refl refl refl refl [] (sym (append-nil _))

  pub execute_search-IsKept : (s : SessionArg G) → IsKept S G (execute_search S G H s)
  unfolding execute_search
  execute_search-IsKept s = search (keeps, set_sce-IsKept) depth 14

  pub on_search-IsKept :
      (s : SessionArg G) (f : Option (Search G) → ℤ × Option (Search G))
      → IsKept S G (on_search S G H s f)
  unfolding on_search
  on_search-IsKept s f = search keeps depth 14

  pub run-IsKept :
      (q : Search G) (count : Bool) → IsKept S G (client_run_output_handler S G H q count)
  unfolding client_run_output_handler
  run-IsKept q count = search keeps depth 14

  pub print_count-IsKept : (s : SessionArg G) → IsKept S G (print_search_result_count S G H s)
  unfolding print_search_result_count
  print_count-IsKept s = search keeps depth 14

  pub print_result-IsKept :
      (s : SessionArg G) (count : Bool) → IsKept S G (print_search_result S G H s count)
  unfolding print_search_result
  print_result-IsKept s count = search (keeps, run-IsKept, destroy_search-IsKept) depth 14

  pub ruleset searches = (
    keeps, slurp-IsKept, create_search-IsKept, destroy_search-IsKept, execute_search-IsKept,
    on_search-IsKept, print_count-IsKept, print_result-IsKept,
  )

  pub dump-IsKept : (argv : List Bytes) (s : SessionArg G) → IsKept S G (dump_handler S G H argv s)
  unfolding dump_handler
  dump-IsKept [] s = search searches depth 14
  dump-IsKept (a ∷ []) s = search searches depth 14
  dump-IsKept (a ∷ b ∷ []) s = search searches depth 20
  dump-IsKept (a ∷ b ∷ c ∷ argv) s = search searches depth 20

  pub fetch-IsKept :
      (argv : List Bytes) (s : SessionArg G) → IsKept S G (fetch_handler S G H argv s)
  unfolding fetch_handler
  fetch-IsKept argv s = search searches

  pub refresh-IsKept :
      (s : SessionArg G) (scope : ℕ) → IsKept S G (refresh_and_execute S G H s scope)
  unfolding refresh_and_execute
  refresh-IsKept s scope = search searches depth 14

  pub options_of-IsKept :
      (argv : List Bytes) (s : SessionArg G) (scope : ℕ)
      → IsKept S G (options_of S G H argv s scope)
  unfolding options_of
  options_of-IsKept [] s scope = search searches
  options_of-IsKept (a ∷ []) s scope = search searches
  options_of-IsKept (a ∷ b ∷ argv) s scope = search searches depth 14

  pub find_by-IsKept :
      (argv : List Bytes) (type : ℤ) (s : SessionArg G) (scope : ℕ)
      → IsKept S G (find_by S G H argv type s scope)
  unfolding find_by
  find_by-IsKept argv type s scope = search (searches, refresh-IsKept) depth 14

  pub find_get-IsKept :
      (argv : List Bytes) (s : SessionArg G) (scope : ℕ)
      → IsKept S G (find_get_handler S G H argv s scope)
  unfolding find_get_handler
  find_get-IsKept argv s scope = search (searches, options_of-IsKept, find_by-IsKept) depth 14

  pub find-IsKept : (argv : List Bytes) (s : SessionArg G) → IsKept S G (find_handler S G H argv s)
  unfolding find_handler
  find-IsKept [] s = search searches
  find-IsKept (a ∷ []) s = search searches
  find-IsKept (a ∷ b ∷ argv) s = search (searches, find_get-IsKept) depth 14

  pub get-IsKept : (argv : List Bytes) (s : SessionArg G) → IsKept S G (get_handler S G H argv s)
  unfolding get_handler
  get-IsKept [] s = search searches
  get-IsKept (a ∷ []) s = search searches
  get-IsKept (a ∷ b ∷ argv) s = search (searches, find_get-IsKept) depth 14
