-- ===== src/Serving.antt =====
-- The loops over the list of clients: `clients_check_timeouts` of src/client.c and
-- `parse_all_client_messages` of src/parse.c.
pub mod Rounds
use secoli_sced.Base.{
  Bytes, ℕ, zero, suc, Bool, true, false, Option, none, some, if◌then◌else◌, ℤ, pos, minus_one,
  ◌==◌,
}
use secoli_sced.Client.{Client, client_check_timeout, client_get_destroy}
use secoli_sced.Commands.Inbox.{Outcome, drained, destroyed, exited, unfinished, handle_messages}
use secoli_sced.Pool.{Pool, clients_getfirst, clients_getnext, sock2_destroy_client_socket}
use secoli_sced.Queue.Glib.{GQueue}
use secoli_sced.Queue.Loops.{rounds}
use secoli_sced.Queue.{Queue}
use secoli_sced.Search.{Glib}
use secoli_sced.World.{World, Host}
use secoli_sced.Xsqlite.{Sqlite}

module _ (S : Sqlite) (G : Glib) (H : Host G) where
  -- The client of `world` is the one that has last been served; `structs` has the struct at each
  -- address. What client_destroy does to a struct is left out: it is not read again.
  pub record Daemon : Type 0 where
    pub world : World G S
    pub pool : Pool (G ℕ)
    pub structs : ℕ → Client G

  abbrev pub put_struct : ℕ → Option (Client G) → Daemon → Daemon
  put_struct c none d = d
  put_struct c (some client) d = record d {
    structs = λ other. if other == c then client else d.structs other;
  }

  -- `sock_destroy_client_socket`, whose result no loop looks at.
  abbrev pub destroy_client : ℕ → Daemon → Daemon
  destroy_client c d = record d { pool = (sock2_destroy_client_socket (G ℕ) c d.pool).1 }

  abbrev pub put_clients : Option (Queue (G ℕ)) → Daemon → Daemon
  put_clients q d = record d { pool = (record d.pool { clients_queue = q }) }

  -- The body of the loop of clients_check_timeouts.
  unfoldable pub check_client : ℤ → ℕ → Daemon → Daemon
  check_client t_diff c d =
      let checked = (client_check_timeout G (some (d.structs c)) t_diff).1 in
      let d' = put_struct c checked d in
      if client_get_destroy G checked then destroy_client c d' else d'

  unfoldable pub check_from : ℤ → ℕ → Option ℕ → Daemon → Daemon
  check_from t_diff zero next d = d
  check_from t_diff (suc fuel) none d = d
  check_from t_diff (suc fuel) (some c) d =
      let d' = check_client t_diff c d in
      let (next, clients) = clients_getnext (G ℕ) d'.pool.clients_queue in
      check_from t_diff fuel next (put_clients clients d')

  unfoldable pub clients_check_timeouts : ℤ → Daemon → ℤ × Daemon
  clients_check_timeouts t_diff d = elim d.pool.clients_queue [
    | none ↦ (minus_one, d)
    | some q ↦
        let (first, clients) = clients_getfirst (G ℕ) (some q) in
        (pos 0, check_from t_diff (rounds (G ℕ) clients) first (put_clients clients d))
  ]

  -- What follows the loop over the messages of the client `c`.
  abbrev pub after_messages : ℕ → Daemon → Outcome → World G S → Daemon
  after_messages c d destroyed w =
      destroy_client c (put_struct c (some w.client) (record d { world = w }))
  after_messages c d drained w = put_struct c (some w.client) (record d { world = w })
  after_messages c d exited w = put_struct c (some w.client) (record d { world = w })
  after_messages c d unfinished w = put_struct c (some w.client) (record d { world = w })

  -- Whether the loop over the clients goes on.
  abbrev pub goes_on : Outcome → Bool
  goes_on drained = true
  goes_on destroyed = true
  goes_on exited = false
  goes_on unfinished = false

  -- In the turn `fuel`, counted down, `memory fuel` is what xmalloc returns, and there are `messages`
  -- rounds for the messages of a client.
  unfoldable pub serve_from :
      (ℕ → ℕ → Option Bytes) → ℕ → ℕ → Option ℕ → Daemon → Option (Outcome × Daemon)
  serve_from memory messages zero next d = some (unfinished, d)
  serve_from memory messages (suc fuel) none d = some (drained, d)
  serve_from memory messages (suc fuel) (some c) d =
      elim (handle_messages S G H (memory fuel) messages
        (record d.world { client = d.structs c })) [
          | none ↦ none
          | some (o, w) ↦
              let d' = after_messages c d o w in
              let (next, clients) = clients_getnext (G ℕ) d'.pool.clients_queue in
              let rest = serve_from memory messages fuel next (put_clients clients d') in
              if goes_on o then rest else some (o, d')
        ]

  unfoldable pub parse_all_client_messages :
      (ℕ → ℕ → Option Bytes) → ℕ → Daemon → Option (Outcome × Daemon)
  parse_all_client_messages memory messages d =
      let (first, clients) = clients_getfirst (G ℕ) d.pool.clients_queue in
      serve_from memory messages (rounds (G ℕ) clients) first (put_clients clients d)
