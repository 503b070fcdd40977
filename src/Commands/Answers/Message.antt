-- ===== src/Commands/Answers/Message.antt =====
-- Each command is answered.
use secoli_sced.Action.{pure, modify, unless_null, ◌>>=◌, ◌>>◌}
use secoli_sced.Base.{
  Bytes, codes, ℕ, ◌≡◌, ◌≢◌, refl, ap, true, false, not, List, [], ◌∷◌, Option, some, pos,
  minus_one, arith,
}
use secoli_sced.Client.{Client}
use secoli_sced.Commands.Answers.Printed.{JsonPrints}
use secoli_sced.Commands.Answers.Results.{replies, print_result-IsAnswered}
use secoli_sced.Commands.Answers.{
  leaves, ends, IsAnswered, bind-IsAnswered, spoken, change-IsAnswered,
}
use secoli_sced.Commands.Dispatch.{run_plain, within_handler, run_handler, say_undefined}
use secoli_sced.Commands.Finding.{
  print_search_result_count, dump_handler, fetch_handler, find_handler, get_handler,
}
use secoli_sced.Commands.Handlers.{
  ok, undefined, unavailable, alter_handler, announce_handler, authenticate_handler, keep_session,
  create_handler, deauthenticate_handler, destroy_handler, echo_handler, hello_handler,
  negotiate_handler, quit_handler, set_handler, show_handler, shutdown_handler, who_handler,
}
use secoli_sced.Commands.Keeping.Plain.{
  announce_node-IsKept, set_counter-IsKept, add_session-IsKept, session_named-IsKept,
}
use secoli_sced.Commands.Keeping.{searches, slurp-IsKept, find_get-IsKept}
use secoli_sced.Commands.Table.{is_embedded, commands_get_handler-keyword_of}
use secoli_sced.Commands.{
  Command, alter, announce, authenticate, create, deauthenticate, destroy, dump, echo, find, fetch,
  get, hello, list, negotiate, quit, set, show, shutdown, who, within, command_is_embeddable,
  commands_get_handler,
}
use secoli_sced.Options.Keeping.{option_get-IsKept}
use secoli_sced.Search.{Glib}
use secoli_sced.Session.{Session}
use secoli_sced.User.{User}
use secoli_sced.World.Kept.{keeps}
use secoli_sced.World.{Host, SessionArg, client_of, set_client, sock_answer_ok}
use secoli_sced.Xsqlite.{Sqlite}

module _ (S : Sqlite) (G : Glib) (H : Host G) where
  ok-IsAnswered : IsAnswered S G (ok S G H)
  unfolding ok sock_answer_ok
  ok-IsAnswered = search spoken

  pub undefined-IsAnswered : IsAnswered S G (undefined S G H)
  unfolding undefined
  undefined-IsAnswered = search replies

  pub unavailable-IsAnswered : IsAnswered S G (unavailable S G H)
  unfolding unavailable
  unavailable-IsAnswered = search replies

  ruleset all_replies =
      (replies, keeps, ok-IsAnswered, undefined-IsAnswered, unavailable-IsAnswered)

  alter-IsAnswered :
      (argv : List Bytes) (s : SessionArg G) → IsAnswered S G (alter_handler S G H argv s)
  unfolding alter_handler
  alter-IsAnswered (a ∷ b ∷ c ∷ []) s = search (all_replies, slurp-IsKept) depth 14
  alter-IsAnswered _ s = search all_replies

  set-IsAnswered :
      (argv : List Bytes) (s : SessionArg G) → IsAnswered S G (set_handler S G H argv s)
  unfolding set_handler
  set-IsAnswered (a ∷ b ∷ c ∷ []) s = search (all_replies, slurp-IsKept) depth 14
  set-IsAnswered _ s = search all_replies

  announce-IsAnswered :
      (argv : List Bytes) (s : SessionArg G) → IsAnswered S G (announce_handler S G H argv s)
  unfolding announce_handler
  announce-IsAnswered (a ∷ b ∷ c ∷ d ∷ e ∷ []) s =
      search (all_replies, announce_node-IsKept) depth 14
  announce-IsAnswered _ s = search all_replies

  new_user :
      (u : Option User)
      → IsAnswered S G
          (client_of S G >>= λ c. set_client S G (record c { user_of = u }) >> ok S G H)
  unfolding ok sock_answer_ok
  new_user u = change-IsAnswered S G (λ c. record c { user_of = u }) (codes "OK") (pos 0) λ c. refl

  authenticate-IsAnswered :
      (argv : List Bytes) (s : SessionArg G) → IsAnswered S G (authenticate_handler S G H argv s)
  unfolding authenticate_handler
  authenticate-IsAnswered (a ∷ b ∷ c ∷ d ∷ e ∷ f ∷ []) s = search (all_replies, new_user) depth 14
  authenticate-IsAnswered _ s = search all_replies

  deauthenticate-IsAnswered :
      (argv : List Bytes) (s : SessionArg G) → IsAnswered S G (deauthenticate_handler S G H argv s)
  unfolding deauthenticate_handler
  deauthenticate-IsAnswered (a ∷ b ∷ []) s = search (all_replies, new_user) depth 14
  deauthenticate-IsAnswered _ s = search all_replies

  keep_session-IsAnswered : (session : Session G) → IsAnswered S G (keep_session S G H session)
  unfolding keep_session
  keep_session-IsAnswered session = search (spoken, add_session-IsKept) depth 20

  created-IsAnswered :
      (created : Option (Session G) × ℕ)
      → IsAnswered S G (
          modify (λ w. record w { session_counter = created.1 })
          >> unless_null created.0 (pure minus_one) (λ session. keep_session S G H session))
  created-IsAnswered created =
      bind-IsAnswered S G _ _ (set_counter-IsKept S G H created.1)
        λ _. search (spoken, keep_session-IsAnswered)

  create-IsAnswered :
      (argv : List Bytes) (s : SessionArg G) → IsAnswered S G (create_handler S G H argv s)
  unfolding create_handler
  create-IsAnswered (a ∷ b ∷ []) s = search (all_replies, created-IsAnswered) depth 20
  create-IsAnswered _ s = search all_replies

  destroy-IsAnswered :
      (argv : List Bytes) (s : SessionArg G) → IsAnswered S G (destroy_handler S G H argv s)
  unfolding destroy_handler
  destroy-IsAnswered (a ∷ b ∷ c ∷ []) s = search (all_replies, session_named-IsKept) depth 14
  destroy-IsAnswered _ s = search all_replies

  echo-IsAnswered :
      (argv : List Bytes) (s : SessionArg G) → IsAnswered S G (echo_handler S G H argv s)
  unfolding echo_handler
  echo-IsAnswered (a ∷ b ∷ argv) s = search spoken
  echo-IsAnswered _ s = search spoken

  hello-IsAnswered :
      (argv : List Bytes) (s : SessionArg G) → IsAnswered S G (hello_handler S G H argv s)
  unfolding hello_handler
  hello-IsAnswered argv s = search spoken

  who-IsAnswered :
      (argv : List Bytes) (s : SessionArg G) → IsAnswered S G (who_handler S G H argv s)
  unfolding who_handler
  who-IsAnswered argv s = search spoken

  negotiate-IsAnswered :
      (argv : List Bytes) (s : SessionArg G) → IsAnswered S G (negotiate_handler S G H argv s)
  unfolding negotiate_handler
  negotiate-IsAnswered (a ∷ b ∷ c ∷ d ∷ []) s = search all_replies depth 14
  negotiate-IsAnswered _ s = search all_replies

  show-IsAnswered :
      (argv : List Bytes) (s : SessionArg G) → IsAnswered S G (show_handler S G H argv s)
  unfolding show_handler
  show-IsAnswered (a ∷ b ∷ argv) s = search (all_replies, option_get-IsKept) depth 14
  show-IsAnswered _ s = search all_replies

  quit-IsAnswered :
      (argv : List Bytes) (s : SessionArg G) → IsAnswered S G (quit_handler S G H argv s)
  unfolding quit_handler ◌>>=◌
  quit-IsAnswered argv s = record { at = λ w k. leaves refl refl }

  exit-IsAnswered : IsAnswered S G (modify (λ w. record w { has_exited = true }) >> pure (pos 0))
  unfolding ◌>>=◌
  exit-IsAnswered = record { at = λ w k. ends refl refl }

  shutdown-IsAnswered :
      (argv : List Bytes) (s : SessionArg G) → IsAnswered S G (shutdown_handler S G H argv s)
  unfolding shutdown_handler
  shutdown-IsAnswered (a ∷ b ∷ []) s = search (all_replies, exit-IsAnswered) depth 14
  shutdown-IsAnswered _ s = search spoken

  print_count-IsAnswered : (s : SessionArg G) → IsAnswered S G (print_search_result_count S G H s)
  unfolding print_search_result_count
  print_count-IsAnswered s = search all_replies depth 14

  module _ (j : (c : Client G) → JsonPrints S G H c) where
    dump-IsAnswered :
        (argv : List Bytes) (s : SessionArg G) → IsAnswered S G (dump_handler S G H argv s)
    unfolding dump_handler
    dump-IsAnswered [] s = search all_replies
    dump-IsAnswered (a ∷ []) s = search all_replies
    dump-IsAnswered (a ∷ b ∷ []) s =
        search (replies, searches, print_result-IsAnswered S G H j) depth 24
    dump-IsAnswered (a ∷ b ∷ c ∷ argv) s =
        search (replies, searches, print_result-IsAnswered S G H j) depth 24

    fetch-IsAnswered :
        (argv : List Bytes) (s : SessionArg G) → IsAnswered S G (fetch_handler S G H argv s)
    unfolding fetch_handler
    fetch-IsAnswered argv s = print_result-IsAnswered S G H j _ false

    find-IsAnswered :
        (argv : List Bytes) (s : SessionArg G) → IsAnswered S G (find_handler S G H argv s)
    unfolding find_handler
    find-IsAnswered [] s = search all_replies
    find-IsAnswered (a ∷ []) s = search all_replies
    find-IsAnswered (a ∷ b ∷ argv) s =
        search (replies, find_get-IsKept, print_count-IsAnswered) depth 14

    get-IsAnswered :
        (argv : List Bytes) (s : SessionArg G) → IsAnswered S G (get_handler S G H argv s)
    unfolding get_handler
    get-IsAnswered [] s = search all_replies
    get-IsAnswered (a ∷ []) s = search all_replies
    get-IsAnswered (a ∷ b ∷ argv) s =
        search (replies, find_get-IsKept, print_result-IsAnswered S G H j) depth 14

    plain-IsAnswered :
        (f : Command) (argv : List Bytes) (s : SessionArg G)
        → f ≢ list
        → IsAnswered S G (run_plain S G H f argv s)
    unfolding run_plain
    plain-IsAnswered alter argv s n = alter-IsAnswered argv s
    plain-IsAnswered announce argv s n = announce-IsAnswered argv s
    plain-IsAnswered authenticate argv s n = authenticate-IsAnswered argv s
    plain-IsAnswered create argv s n = create-IsAnswered argv s
    plain-IsAnswered deauthenticate argv s n = deauthenticate-IsAnswered argv s
    plain-IsAnswered destroy argv s n = destroy-IsAnswered argv s
    plain-IsAnswered dump argv s n = dump-IsAnswered argv s
    plain-IsAnswered echo argv s n = echo-IsAnswered argv s
    plain-IsAnswered find argv s n = find-IsAnswered argv s
    plain-IsAnswered fetch argv s n = fetch-IsAnswered argv s
    plain-IsAnswered get argv s n = get-IsAnswered argv s
    plain-IsAnswered hello argv s n = hello-IsAnswered argv s
    plain-IsAnswered list argv s n = absurd (n refl)
    plain-IsAnswered negotiate argv s n = negotiate-IsAnswered argv s
    plain-IsAnswered quit argv s n = quit-IsAnswered argv s
    plain-IsAnswered set argv s n = set-IsAnswered argv s
    plain-IsAnswered show argv s n = show-IsAnswered argv s
    plain-IsAnswered shutdown argv s n = shutdown-IsAnswered argv s
    plain-IsAnswered who argv s n = who-IsAnswered argv s
    plain-IsAnswered within argv s n = undefined-IsAnswered

    say_undefined-IsAnswered : IsAnswered S G (say_undefined S G H)
    say_undefined-IsAnswered = search spoken

    run_embedded-IsAnswered :
        (cmd : Bytes) (argv : List Bytes) (s : SessionArg G) (f : Command)
        → not (command_is_embeddable (some cmd)) ≡ false
        → commands_get_handler (some cmd) ≡ some f
        → IsAnswered S G (run_plain S G H f argv s)
    run_embedded-IsAnswered cmd argv s f e h = plain-IsAnswered f argv s λ q.
        let (_, same) = commands_get_handler-keyword_of cmd f in
        ground (arith, same h, ap is_embedded q)

    within-IsAnswered :
        (argv : List Bytes) (s : SessionArg G) → IsAnswered S G (within_handler S G H argv s)
    unfolding within_handler
    within-IsAnswered (a ∷ b ∷ c ∷ cmd ∷ argv) s =
        search (all_replies, session_named-IsKept, run_embedded-IsAnswered) depth 20
    within-IsAnswered _ s = say_undefined-IsAnswered

    pub run-IsAnswered :
        (f : Command) (argv : List Bytes) (s : SessionArg G)
        → f ≢ list
        → IsAnswered S G (run_handler S G H f argv s)
    unfolding run_handler
    run-IsAnswered within argv s n = within-IsAnswered argv s
    run-IsAnswered alter argv s n = plain-IsAnswered alter argv s n
    run-IsAnswered announce argv s n = plain-IsAnswered announce argv s n
    run-IsAnswered authenticate argv s n = plain-IsAnswered authenticate argv s n
    run-IsAnswered create argv s n = plain-IsAnswered create argv s n
    run-IsAnswered deauthenticate argv s n = plain-IsAnswered deauthenticate argv s n
    run-IsAnswered destroy argv s n = plain-IsAnswered destroy argv s n
    run-IsAnswered dump argv s n = plain-IsAnswered dump argv s n
    run-IsAnswered echo argv s n = plain-IsAnswered echo argv s n
    run-IsAnswered find argv s n = plain-IsAnswered find argv s n
    run-IsAnswered fetch argv s n = plain-IsAnswered fetch argv s n
    run-IsAnswered get argv s n = plain-IsAnswered get argv s n
    run-IsAnswered hello argv s n = plain-IsAnswered hello argv s n
    run-IsAnswered list argv s n = plain-IsAnswered list argv s n
    run-IsAnswered negotiate argv s n = plain-IsAnswered negotiate argv s n
    run-IsAnswered quit argv s n = plain-IsAnswered quit argv s n
    run-IsAnswered set argv s n = plain-IsAnswered set argv s n
    run-IsAnswered show argv s n = plain-IsAnswered show argv s n
    run-IsAnswered shutdown argv s n = plain-IsAnswered shutdown argv s n
    run-IsAnswered who argv s n = plain-IsAnswered who argv s n
