-- ===== src/Commands/Handlers.antt =====
-- src/commands.c: the commands that neither search nor run another command.
use secoli_sced.Action.{unless_null, pure, fault, gets, modify, ◌>>=◌, ◌>>◌}
use secoli_sced.Base.{
  Bytes, codes, ℕ, zero, suc, Bool, true, not, ◌&&◌, ◌||◌, List, [], ◌∷◌, ◌++◌, Option, none, some,
  if◌then◌else◌, ltb, str_eq, ℤ, pos, negsuc, minus_one, eqb_ℤ, is_neg,
}
use secoli_sced.Client.{client_add_session, client_get_sessions}
use secoli_sced.Commands.Finding.{get_effective_session}
use secoli_sced.Commands.Slurp.{slurp_and_set_options}
use secoli_sced.Options.Table.{option_get, options_list}
use secoli_sced.Options.{is_anonymous, scope_session, scope_client, scope_any}
use secoli_sced.Search.{Glib}
use secoli_sced.Session.List.{Pointed, session_at, sessions_find_by_id}
use secoli_sced.Session.{Session, session_create, session_id_to_string, session_string_to_id}
use secoli_sced.Topology.{
  Node, node_assemble, topology_announce_node, topology_count_nodes, topology_leader,
  topology_list_nodes,
}
use secoli_sced.User.{user_authenticate}
use secoli_sced.World.{
  Host, SessionArg, Do, client_of, set_client, print_line, sock_answer_ok, sock_answer_undefined,
  sock_answer_unavailable,
}
use secoli_sced.Xsqlite.{Sqlite}

-- VERSION and PROTOCOL_VERSION
abbrev pub version : Bytes
version = codes "0.3.3"

abbrev pub protocol_version : Bytes
protocol_version = codes "0"

module _ (S : Sqlite) (G : Glib) (H : Host G) where
  abbrev pub Handler : Type 0
  Handler = List Bytes → SessionArg G → Do S G ℤ

  -- What most of the handlers end with.
  unfoldable pub ok : Do S G ℤ
  unfolding sock_answer_ok
  ok = sock_answer_ok S G >> pure (pos 0)

  unfoldable pub undefined : Do S G ℤ
  unfolding sock_answer_undefined
  undefined = sock_answer_undefined S G >> pure (pos 0)

  unfoldable pub unavailable : Do S G ℤ
  unfolding sock_answer_unavailable
  unavailable = sock_answer_unavailable S G >> pure (pos 0)

  unfoldable pub alter_handler : Handler
  unfolding ok undefined slurp_and_set_options
  alter_handler (command ∷ cmd ∷ value ∷ []) s =
      slurp_and_set_options S G H (cmd ∷ value ∷ []) s scope_client >>= λ used.
      if ltb used 2 then undefined else ok
  alter_handler _ s = undefined

  -- The world with the topology that `topology_announce_node` leaves.
  unfoldable pub announce_node : Node → Do S G Bool
  announce_node node = gets (λ w. w.topology) >>= λ t.
      let (announced, t') = topology_announce_node (G Node) t (some node) in
      modify (λ w. record w { topology = t' }) >> pure announced

  unfoldable pub announce_handler : Handler
  unfolding ok undefined unavailable announce_node
  announce_handler (command ∷ node_word ∷ address ∷ port_word ∷ port ∷ []) s =
      if not (str_eq node_word (codes "NODE") && str_eq port_word (codes "PORT"))
      then undefined
      else (client_of S G >>= λ c. gets (λ w. topology_leader (G Node) w.topology) >>= λ leads.
          if is_anonymous c || not leads
          then unavailable
          else unless_null (node_assemble H.node_memory address port) (undefined)
              (λ node. announce_node node >>= λ announced. if announced then ok else unavailable))
  announce_handler _ s = undefined

  -- `user_deauthenticate`, here and below, does nothing.
  unfoldable pub authenticate_handler : Handler
  unfolding ok undefined unavailable
  authenticate_handler (command ∷ user_word ∷ name ∷ with_word ∷ password_word ∷ password ∷ []) s =
      if not (
        str_eq user_word (codes "USER")
        && str_eq with_word (codes "WITH")
        && str_eq password_word (codes "PASSWORD"))
      then undefined
      else unless_null (user_authenticate H.passwords H.user_memory (some name) (some password))
          (unavailable)
          (λ u. client_of S G >>= λ c. set_client S G (record c { user_of = some u }) >> ok)
  authenticate_handler _ s = undefined

  -- `client_add_session(c, session)`
  unfoldable pub add_session : Session G → Do S G ℤ
  add_session session = client_of S G >>= λ c.
      let (status, c') = client_add_session G (some c) (some (session_at session)) in
      unless_null c' (pure tt) (λ c2. set_client S G c2) >> pure status

  -- What `create_handler` does with the session that has been made.
  unfoldable pub keep_session : Session G → Do S G ℤ
  unfolding add_session
  keep_session session = add_session session >>= λ status.
      if not (eqb_ℤ status (pos 0))
      then pure minus_one
      else unless_null (session_id_to_string G true (some session)) fault
          (λ text. unless_null text fault (λ id. print_line S G id >> pure (pos 0)))

  unfoldable pub create_handler : Handler
  unfolding undefined keep_session
  create_handler (command ∷ session_word ∷ []) s =
      if not (str_eq session_word (codes "SESSION"))
      then undefined
      else (gets (λ w. session_create G H.session_memory w.session_counter) >>= λ created.
          modify (λ w. record w { session_counter = created.1 })
          >> unless_null created.0 (pure minus_one) (λ session. keep_session session))
  create_handler _ s = undefined

  unfoldable pub deauthenticate_handler : Handler
  unfolding ok undefined
  deauthenticate_handler (command ∷ user_word ∷ []) s =
      if not (str_eq user_word (codes "USER"))
      then undefined
      else (client_of S G >>= λ c. set_client S G (record c { user_of = none }) >> ok)
  deauthenticate_handler _ s = undefined

  -- `sessions_find_by_id(client_get_sessions(c), session_string_to_id(argv[2]))`, which moves the
  -- cursor of the list.
  unfoldable pub session_named : Bytes → Do S G (Option (Pointed G))
  session_named text = client_of S G >>= λ c.
      let (session, sessions) =
        sessions_find_by_id G (G (Pointed G)) (client_get_sessions G (some c))
          (session_string_to_id (some text)) in
      set_client S G (record c { sessions = sessions }) >> pure session

  -- `session_destroy` reads the session and frees it, which what is found cannot take;
  -- `client_remove_session` does nothing.
  unfoldable pub destroy_handler : Handler
  unfolding undefined session_named
  destroy_handler (command ∷ session_word ∷ id ∷ []) s =
      if not (str_eq session_word (codes "SESSION"))
      then undefined
      else (session_named id >>= λ session. unless_null session undefined (λ p. fault))
  destroy_handler _ s = undefined

  unfoldable pub echo_handler : Handler
  echo_handler (command ∷ text ∷ argv) s = print_line S G text >> pure (pos 0)
  echo_handler _ s = print_line S G [] >> pure (pos 0)

  unfoldable pub hello_handler : Handler
  hello_handler argv s =
      print_line S G (
        codes "SCE GATEWAY VERSION "
        ++ (version ++ (codes " PROTOCOL VERSION " ++ protocol_version)))
      >> pure (pos 0)

  -- The loop of `list_handler`, from the index `i` on, for at most `fuel` rounds.
  unfoldable pub list_from : (ℕ → Do S G (Option Bytes)) → ℕ → ℕ → Do S G ℤ
  list_from item zero i = pure (pos 0)
  list_from item (suc fuel) i =
      let others = list_from item fuel (suc i) in
      item i >>= λ buffer. unless_null buffer (pure (pos 0)) (λ text. print_line S G text >> others)

  unfoldable pub list_node : ℕ → Do S G (Option Bytes)
  list_node i = gets (λ w. topology_list_nodes (G Node) true w.topology (pos i)) >>= λ r.
      modify (λ w. record w { topology = r.1 }) >> pure r.0

  -- The table has 13 options, and the round behind the last ends the loop.
  unfoldable pub list_options : SessionArg G → ℕ → Do S G ℤ
  unfolding options_list list_from
  list_options s option_scope = list_from (options_list S G H s option_scope) 14 0

  -- A round takes a node, and the round behind the last ends the loop.
  unfoldable pub nodes_counted : ℤ → Do S G ℤ
  unfolding unavailable list_from list_node
  nodes_counted (pos n) = list_from list_node (suc n) 0
  nodes_counted (negsuc n) = unavailable

  unfoldable pub list_nodes : Do S G ℤ
  unfolding unavailable nodes_counted
  list_nodes = client_of S G >>= λ c.
      gets (λ w. topology_count_nodes (G Node) w.topology) >>= λ node_count.
      if is_anonymous c || is_neg node_count
      then unavailable
      else if eqb_ℤ node_count (pos 0)
      then (print_line S G (codes "NO NODES AS YET") >> pure (pos 0))
      else nodes_counted node_count

  unfoldable pub list_handler : Handler
  unfolding get_effective_session undefined list_options list_nodes
  list_handler (command ∷ what ∷ []) s =
      if str_eq what (codes "NODES")
      then list_nodes
      else if str_eq what (codes "OPTIONS")
      then list_options (get_effective_session s) scope_session
      else undefined
  list_handler (command ∷ first ∷ what ∷ []) s =
      if str_eq first (codes "GLOBAL") && str_eq what (codes "OPTIONS")
      then list_options (get_effective_session s) scope_client
      else undefined
  list_handler _ s = undefined

  unfoldable pub negotiate_handler : Handler
  unfolding ok undefined unavailable
  negotiate_handler (command ∷ protocol ∷ word ∷ number ∷ []) s =
      if not (str_eq protocol (codes "PROTOCOL") && str_eq word (codes "VERSION"))
      then undefined
      else if not (str_eq number protocol_version)
      then unavailable
      else ok
  negotiate_handler _ s = undefined

  unfoldable pub quit_handler : Handler
  quit_handler argv s =
      client_of S G >>= λ c. set_client S G (record c { destroy = true }) >> pure (pos 0)

  unfoldable pub set_handler : Handler
  unfolding get_effective_session ok undefined slurp_and_set_options
  set_handler (command ∷ cmd ∷ value ∷ []) s =
      slurp_and_set_options S G H (cmd ∷ value ∷ []) (get_effective_session s) scope_session
      >>= λ used. if ltb used 2 then undefined else ok
  set_handler _ s = undefined

  unfoldable pub show_handler : Handler
  unfolding get_effective_session undefined option_get
  show_handler (command ∷ cmd ∷ argv) s =
      option_get S G H cmd (get_effective_session s) scope_any >>= λ value.
      unless_null value (undefined) (λ text. print_line S G text >> pure (pos 0))
  show_handler _ s = undefined

  unfoldable pub shutdown_handler : Handler
  unfolding unavailable
  shutdown_handler (command ∷ word ∷ []) s =
      if not (str_eq word (codes "IMMEDIATE"))
      then (print_line S G (codes "UNDEFINED") >> pure (pos 0))
      else (client_of S G >>= λ c.
          if is_anonymous c
          then unavailable
          else (modify (λ w. record w { has_exited = true }) >> pure (pos 0)))
  shutdown_handler _ s = print_line S G (codes "UNDEFINED") >> pure (pos 0)

  unfoldable pub who_handler : Handler
  who_handler argv s = print_line S G H.client_identity >> pure (pos 0)
