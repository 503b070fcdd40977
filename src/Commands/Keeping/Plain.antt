-- ===== src/Commands/Keeping/Plain.antt =====
-- What the other commands keep, but for AUTHENTICATE, DEAUTHENTICATE, QUIT and SHUTDOWN.
use secoli_sced.Action.{modify, unless_null, ◌>>=◌}
use secoli_sced.Base.{Bytes, ℕ, zero, suc, refl, sym, List, [], ◌∷◌, Option, ℤ, pos, negsuc}
use mathlib.Core.List.{append-nil}
use secoli_sced.Client.{client_add_session}
use secoli_sced.Commands.Keeping.{slurp-IsKept}
use secoli_sced.Commands.Handlers.{
  ok, undefined, unavailable, alter_handler, announce_node, announce_handler, add_session,
  keep_session, create_handler, session_named, destroy_handler, echo_handler, hello_handler,
  list_from, list_node, list_options, nodes_counted, list_nodes, list_handler, negotiate_handler,
  set_handler, show_handler, who_handler,
}
use secoli_sced.Options.Keeping.{option_get-IsKept, options_list-IsKept}
use secoli_sced.Search.{Glib}
use secoli_sced.Session.{Session}
use secoli_sced.Topology.{Node, Topology}
use secoli_sced.World.Kept.{
  keeps, IsKept, Kept, kept, refl-Kept, set_client-Kept, alike, modify-IsKept, bind-IsKept,
  unless_null-IsKept, sock_printf-IsKept, if-IsKept, pure-IsKept,
}
use secoli_sced.World.{Host, SessionArg, Do}
use secoli_sced.Xsqlite.{Sqlite}

module _ (S : Sqlite) (G : Glib) (H : Host G) where
  pub ok-IsKept : IsKept S G (ok S G H)
  unfolding ok
  ok-IsKept = search keeps

  pub undefined-IsKept : IsKept S G (undefined S G H)
  unfolding undefined
  undefined-IsKept = search keeps

  pub unavailable-IsKept : IsKept S G (unavailable S G H)
  unfolding unavailable
  unavailable-IsKept = search keeps

  pub ruleset answers = (keeps, ok-IsKept, undefined-IsKept, unavailable-IsKept)

  pub alter-IsKept :
      (argv : List Bytes) (s : SessionArg G) → IsKept S G (alter_handler S G H argv s)
  unfolding alter_handler
  alter-IsKept (a ∷ b ∷ c ∷ []) s = search (answers, slurp-IsKept) depth 14
  alter-IsKept _ s = search answers

  pub set-IsKept : (argv : List Bytes) (s : SessionArg G) → IsKept S G (set_handler S G H argv s)
  unfolding set_handler
  set-IsKept (a ∷ b ∷ c ∷ []) s = search (answers, slurp-IsKept) depth 14
  set-IsKept _ s = search answers

  pub set_topology-IsKept :
      (t : Topology (G Node)) → IsKept S G (modify λ w. record w { topology = t })
  set_topology-IsKept t = modify-IsKept S G _ λ w. kept refl refl refl refl [] (sym (append-nil _))

  pub announce_node-IsKept : (node : Node) → IsKept S G (announce_node S G H node)
  unfolding announce_node
  announce_node-IsKept node = search (answers, set_topology-IsKept) depth 14

  pub announce-IsKept :
      (argv : List Bytes) (s : SessionArg G) → IsKept S G (announce_handler S G H argv s)
  unfolding announce_handler
  announce-IsKept (a ∷ b ∷ c ∷ d ∷ e ∷ []) s = search (answers, announce_node-IsKept) depth 14
  announce-IsKept _ s = search answers

  pub echo-IsKept : (argv : List Bytes) (s : SessionArg G) → IsKept S G (echo_handler S G H argv s)
  unfolding echo_handler
  echo-IsKept (a ∷ b ∷ argv) s = search answers
  echo-IsKept _ s = search answers

  pub hello-IsKept :
      (argv : List Bytes) (s : SessionArg G) → IsKept S G (hello_handler S G H argv s)
  unfolding hello_handler
  hello-IsKept argv s = search answers

  pub who-IsKept : (argv : List Bytes) (s : SessionArg G) → IsKept S G (who_handler S G H argv s)
  unfolding who_handler
  who-IsKept argv s = search answers

  pub negotiate-IsKept :
      (argv : List Bytes) (s : SessionArg G) → IsKept S G (negotiate_handler S G H argv s)
  unfolding negotiate_handler
  negotiate-IsKept (a ∷ b ∷ c ∷ d ∷ []) s = search answers depth 14
  negotiate-IsKept _ s = search answers

  pub show-IsKept : (argv : List Bytes) (s : SessionArg G) → IsKept S G (show_handler S G H argv s)
  unfolding show_handler
  show-IsKept (a ∷ b ∷ argv) s = search (answers, option_get-IsKept) depth 14
  show-IsKept _ s = search answers

  pub list_from-IsKept :
      (item : ℕ → Do S G (Option Bytes))
      → ((i : ℕ) → IsKept S G (item i))
      → (fuel i : ℕ) → IsKept S G (list_from S G H item fuel i)
  unfolding list_from
  list_from-IsKept item h zero i = search answers
  list_from-IsKept item h (suc fuel) i =
      let others = list_from-IsKept item h fuel (suc i) in
      bind-IsKept S G _ _ (h i) λ b.
        unless_null-IsKept S G b _ _ (pure-IsKept S G (pos 0))
          λ text. bind-IsKept S G _ _ (sock_printf-IsKept S G _) λ _. others

  pub list_node-IsKept : (i : ℕ) → IsKept S G (list_node S G H i)
  unfolding list_node
  list_node-IsKept i = search (answers, set_topology-IsKept) depth 14

  pub nodes_counted-IsKept : (n : ℤ) → IsKept S G (nodes_counted S G H n)
  unfolding nodes_counted
  nodes_counted-IsKept (pos n) = list_from-IsKept _ list_node-IsKept (suc n) 0
  nodes_counted-IsKept (negsuc n) = search answers

  pub list_nodes-IsKept : IsKept S G (list_nodes S G H)
  unfolding list_nodes
  list_nodes-IsKept = search (answers, nodes_counted-IsKept) depth 14

  pub list_options-IsKept : (s : SessionArg G) (scope : ℕ) → IsKept S G (list_options S G H s scope)
  unfolding list_options
  list_options-IsKept s scope = list_from-IsKept _ (options_list-IsKept S G H s scope) 14 0

  pub list-IsKept : (argv : List Bytes) (s : SessionArg G) → IsKept S G (list_handler S G H argv s)
  unfolding list_handler
  list-IsKept (a ∷ b ∷ []) s = search (answers, list_nodes-IsKept, list_options-IsKept) depth 14
  list-IsKept (a ∷ b ∷ c ∷ []) s = search (answers, list_options-IsKept) depth 14
  list-IsKept _ s = search answers

  pub set_counter-IsKept : (n : ℕ) → IsKept S G (modify λ w. record w { session_counter = n })
  set_counter-IsKept n = modify-IsKept S G _ λ w. kept refl refl refl refl [] (sym (append-nil _))

  pub add_session-IsKept : (session : Session G) → IsKept S G (add_session S G H session)
  unfolding add_session ◌>>=◌ unless_null client_add_session
  add_session-IsKept session = record { at = λ w. set_client-Kept S G w _ (alike refl refl refl) }

  keep_session-IsKept : (session : Session G) → IsKept S G (keep_session S G H session)
  unfolding keep_session
  keep_session-IsKept session = search (answers, add_session-IsKept) depth 20

  pub create-IsKept :
      (argv : List Bytes) (s : SessionArg G) → IsKept S G (create_handler S G H argv s)
  unfolding create_handler
  create-IsKept (a ∷ b ∷ []) s = search (answers, set_counter-IsKept, keep_session-IsKept) depth 20
  create-IsKept _ s = search answers

  pub session_named-IsKept : (text : Bytes) → IsKept S G (session_named S G H text)
  unfolding session_named ◌>>=◌
  session_named-IsKept text = record { at = λ w. set_client-Kept S G w _ (alike refl refl refl) }

  pub destroy-IsKept :
      (argv : List Bytes) (s : SessionArg G) → IsKept S G (destroy_handler S G H argv s)
  unfolding destroy_handler
  destroy-IsKept (a ∷ b ∷ c ∷ []) s = search (answers, session_named-IsKept) depth 14
  destroy-IsKept _ s = search answers
