-- ===== src/Commands/Finding.antt =====
-- src/commands.c: the commands that search: DUMP, FETCH, FIND and GET.
use secoli_sced.Action.{unless_null, pure, fault, gets, modify, ◌>>=◌, ◌>>◌}
use secoli_sced.Base.{
  Bytes, codes, ℕ, Bool, true, false, not, ◌&&◌, ◌||◌, List, [], ◌∷◌, Option, none, some,
  if◌then◌else◌, drop, str_eq, ℤ, pos, negsuc, minus_one, eqb_ℤ, is_neg, ltb_ℤ,
}
use secoli_sced.Client.{Client, client_get_output_handler}
use secoli_sced.Clib.{decimal_int}
use secoli_sced.Commands.Slurp.{slurp_and_set_options, slurp_name, slurp_zipcode, slurp_mae_code}
use secoli_sced.Csv.{output_csv_print, output_flat_print, output_void_print}
use secoli_sced.Options.{meets, scope_search, scope_session}
use secoli_sced.Output.{Format, csv, flat, json, void_format}
use secoli_sced.Search.{
  Search, Glib, search_set_type, search_set_name, search_set_zipcode, search_set_mae_code,
  search_set_sce_code, type_consulates, type_locations, type_zc_specimina, type_consular_districts,
  type_dump,
}
use secoli_sced.Session.{
  session_create_search, session_destroy_search, session_get_search, session_refresh_search_options,
  session_execute_search, session_count_search_results,
}
use secoli_sced.World.{
  Host, SessionArg, null, of_client, found, Do, client_of, session_of, set_session, is_null,
  print_line, print_all, sock_answer_undefined, sock_answer_unavailable,
}
use secoli_sced.Xsqlite.{Sqlite}

-- `get_effective_session`
unfoldable pub get_effective_session : {G : Glib} → SessionArg G → SessionArg G
get_effective_session null = of_client
get_effective_session of_client = of_client
get_effective_session (found p) = found p

module _ (S : Sqlite) (G : Glib) (H : Host G) where
  -- The calls of session.c and client.c, on the session that is pointed to.
  unfoldable pub create_search : SessionArg G → Do S G ℤ
  unfolding session_of set_session
  create_search s = session_of S G s >>= λ t.
      let (status, t') = session_create_search G t H.search_memory H.queue_memory in
      set_session S G s t' >> pure status

  unfoldable pub destroy_search : SessionArg G → Do S G (Unit {0})
  unfolding session_of set_session
  destroy_search s = session_of S G s >>= λ t. set_session S G s (session_destroy_search G t)

  unfoldable pub execute_search : SessionArg G → Do S G ℤ
  unfolding session_of set_session
  execute_search s = session_of S G s >>= λ t. gets (λ w. w.sce) >>= λ sce.
      unless_null (session_execute_search G S H.format_rest H.record_memory t sce) (fault)
        (λ (status, t', sce').
          modify (λ w. record w { sce = sce' }) >> (set_session S G s t' >> pure status))

  -- A change of the session's search, by a function of search.c. NULL is for it to see.
  unfoldable pub on_search : SessionArg G → (Option (Search G) → ℤ × Option (Search G)) → Do S G ℤ
  unfolding session_of set_session
  on_search s f = session_of S G s >>= λ t. unless_null t (pure (f none).0) (λ t'.
      let (status, q) = f (session_get_search G (some t')) in
      set_session S G s (some (record t' { search_of = q })) >> pure status)

  -- `output_run_handler`: the dumper of the handler's format.
  unfoldable pub run_dumper :
      Client G → Format → Search G → Bool → Option (ℤ × List Bytes × Search G)
  run_dumper c csv q count = output_csv_print H.iconv G c q count
  run_dumper c flat q count = output_flat_print H.iconv G c q count
  run_dumper c json q count = some (H.print_json q)
  run_dumper c void_format q count = output_void_print H.iconv G c q count

  -- What is left of the search is destroyed by the caller.
  unfoldable pub client_run_output_handler : Search G → Bool → Do S G ℤ
  unfolding print_all run_dumper
  client_run_output_handler q count = client_of S G >>= λ c.
      unless_null (client_get_output_handler G (some c)) (pure minus_one) (λ oh.
        (unless_null (run_dumper c oh.format q count) (fault)
          (λ (result, lines, q'). print_all S G lines >> pure result)))

  unfoldable pub print_search_result_count : SessionArg G → Do S G ℤ
  unfolding session_of is_null sock_answer_unavailable
  print_search_result_count s = is_null S G s >>= λ missing.
      if missing
      then (sock_answer_unavailable S G >> pure minus_one)
      else (session_of S G s >>= λ t.
          let result_count = session_count_search_results G t in
          if is_neg result_count
          then (sock_answer_unavailable S G >> pure (pos 0))
          else (print_line S G (decimal_int result_count) >> pure (pos 0)))

  unfoldable pub print_search_result : SessionArg G → Bool → Do S G ℤ
  unfolding session_of is_null sock_answer_unavailable sock_answer_undefined
      client_run_output_handler destroy_search
  print_search_result s print_result_count = is_null S G s >>= λ missing.
      if missing
      then (sock_answer_unavailable S G >> pure minus_one)
      else (session_of S G s >>= λ t.
          unless_null (session_get_search G t) (sock_answer_unavailable S G >> pure minus_one)
            (λ search. client_run_output_handler search print_result_count >>= λ result.
              destroy_search s
              >> (if ltb_ℤ (pos 0) result
                  then pure (pos 0)
                  else (sock_answer_undefined S G >> pure (pos 0)))))

  -- `search = session_get_search(s); if (!search) …`
  abbrev has_search : SessionArg G → Do S G Bool
  has_search s =
      session_of S G s >>= λ t. unless_null (session_get_search G t) (pure false) (λ q. pure true)

  abbrev dump_options : List Bytes → SessionArg G → Do S G ℕ
  dump_options [] s = pure 0
  dump_options (w ∷ argv) s =
      if str_eq w (codes "WITH") then slurp_and_set_options S G H argv s scope_search else pure 0

  unfoldable pub dump_handler : List Bytes → SessionArg G → Do S G ℤ
  unfolding get_effective_session session_of sock_answer_unavailable sock_answer_undefined
      create_search destroy_search execute_search on_search print_search_result
      slurp_and_set_options
  dump_handler (command ∷ what ∷ argv) s0 =
      let s = get_effective_session s0 in
      if not (str_eq what (codes "LOCATIONS"))
      then (sock_answer_undefined S G >> pure (pos 0))
      else (create_search s >>= λ created.
          if is_neg created
          then (sock_answer_unavailable S G >> pure (pos 0))
          else (dump_options argv s >>= λ options_argc. has_search s >>= λ made.
              if not made
              then (sock_answer_unavailable S G >> pure (pos 0))
              else (on_search s (λ q. search_set_type G q type_dump) >>= λ _.
                  execute_search s >>= λ executed.
                  if is_neg executed
                  then (destroy_search s >> (sock_answer_unavailable S G >> pure (pos 0)))
                  else print_search_result s true)))
  dump_handler _ s0 = sock_answer_undefined S G >> pure (pos 0)

  unfoldable pub fetch_handler : List Bytes → SessionArg G → Do S G ℤ
  unfolding get_effective_session print_search_result
  fetch_handler argv s = print_search_result (get_effective_session s) false

  -- How many arguments say what is wanted, and the type of the search. CONSULAR without
  -- DISTRICTS sets neither: the first is still 0.
  unfoldable pub requested : List Bytes → Option (ℕ × ℤ)
  requested (what ∷ second ∷ argv) =
      let is = str_eq what in
      if is (codes "LOCATIONS")
      then some (1, type_locations)
      else if is (codes "CONSULATES")
      then some (1, type_consulates)
      else if is (codes "CONSULAR")
      then some (
          if str_eq second (codes "DISTRICTS")
          then (2, type_consular_districts)
          else (0, H.uninitialised))
      else if is (codes "SPECIMINA") && str_eq second (codes "OF")
      then elim argv [
        | [] ↦ none
        | third ∷ rest ↦
            if str_eq third (codes "ZIPCODES") then some (3, type_zc_specimina) else none
      ]
      else none
  requested _ = none

  -- The options behind WITH, and the arguments behind them.
  unfoldable pub options_of : List Bytes → SessionArg G → ℕ → Do S G (List Bytes)
  unfolding slurp_and_set_options
  options_of (w ∷ option ∷ argv) s scope =
      if str_eq w (codes "WITH")
      then (slurp_and_set_options S G H (option ∷ argv) s scope >>= λ options_argc.
          pure (drop options_argc (option ∷ argv)))
      else pure (w ∷ option ∷ argv)
  options_of argv s scope = pure argv

  -- What the BY clause does with the search, if there is one. The text of an argument is not
  -- NULL.
  unfoldable pub by_clause : List Bytes → Option (Option (Search G) → ℤ × Option (Search G))
  unfolding slurp_name slurp_zipcode slurp_mae_code
  by_clause (by ∷ key ∷ value ∷ argv) =
      let is = str_eq key in
      if not (str_eq by (codes "BY"))
      then none
      else if is (codes "NAME")
      then some (λ q. search_set_name G q (slurp_name (value ∷ argv)))
      else if is (codes "ZIPCODE")
      then some (λ q. search_set_zipcode G q (slurp_zipcode (value ∷ argv)))
      else if is (codes "MAE_CODE")
      then elim (slurp_mae_code (value ∷ argv)) [
        | none ↦ none
        | some mae_code ↦ some λ q. search_set_mae_code G q mae_code
      ]
      else if is (codes "SCE_CODE") || is (codes "LOCATION_CODE")
      then some (λ q. search_set_sce_code G q value (H.address value))
      else none
  by_clause _ = none

  abbrev give_up : SessionArg G → ℤ → Do S G ℤ
  give_up s status = destroy_search s >> pure status

  abbrev refresh : SessionArg G → ℕ → Do S G ℤ
  refresh s option_scope =
      if meets option_scope scope_session
      then (session_of S G s >>= λ t. on_search s λ q. session_refresh_search_options G t q)
      else pure (pos 0)

  -- -2
  abbrev minus_two : ℤ
  minus_two = negsuc 1

  -- Behind the BY clause.
  unfoldable pub refresh_and_execute : SessionArg G → ℕ → Do S G ℤ
  unfolding destroy_search execute_search on_search session_of
  refresh_and_execute s option_scope = refresh s option_scope >>= λ refreshed.
      if is_neg refreshed
      then give_up s minus_two
      else (execute_search s >>= λ executed.
          if is_neg executed then give_up s minus_two else pure (pos 0))

  -- Behind the options.
  unfoldable pub find_by : List Bytes → ℤ → SessionArg G → ℕ → Do S G ℤ
  unfolding destroy_search on_search by_clause refresh_and_execute session_of
  find_by argv search_type s option_scope = has_search s >>= λ made.
      if not made
      then pure minus_two
      else (on_search s (λ q. search_set_type G q search_type) >>= λ _.
          unless_null (by_clause argv)
            (if eqb_ℤ search_type type_consulates || eqb_ℤ search_type type_zc_specimina
              then refresh_and_execute s option_scope
              else give_up s minus_one)
            (λ f. on_search s f >>= λ status.
              if is_neg status then give_up s minus_two else refresh_and_execute s option_scope))

  unfoldable pub find_get_handler : List Bytes → SessionArg G → ℕ → Do S G ℤ
  unfolding create_search requested options_of find_by
  find_get_handler argv s option_scope =
      unless_null (requested argv) (pure minus_one) (λ (used_argc, search_type).
        create_search s >>= λ created.
        if is_neg created
        then pure minus_two
        else (options_of (drop used_argc argv) s option_scope >>= λ rest.
            find_by rest search_type s option_scope))

  -- What `find_handler` and `get_handler` do with the result.
  abbrev report_found : ℤ → Do S G ℤ → Do S G ℤ
  report_found error print =
      if eqb_ℤ error minus_two
      then (sock_answer_unavailable S G >> pure (pos 0))
      else if is_neg error
      then (sock_answer_undefined S G >> pure (pos 0))
      else print

  unfoldable pub find_handler : List Bytes → SessionArg G → Do S G ℤ
  unfolding get_effective_session sock_answer_unavailable sock_answer_undefined find_get_handler
      print_search_result_count
  find_handler (command ∷ what ∷ argv) s0 =
      let s = get_effective_session s0 in
      find_get_handler (what ∷ argv) s scope_session >>= λ error.
      report_found error (print_search_result_count s)
  find_handler _ s0 = sock_answer_undefined S G >> pure (pos 0)

  unfoldable pub get_handler : List Bytes → SessionArg G → Do S G ℤ
  unfolding get_effective_session sock_answer_unavailable sock_answer_undefined find_get_handler
      print_search_result
  get_handler (command ∷ what ∷ argv) s0 =
      let s = get_effective_session s0 in
      find_get_handler (what ∷ argv) s scope_search >>= λ error.
      report_found error (print_search_result s true)
  get_handler _ s0 = sock_answer_undefined S G >> pure (pos 0)
