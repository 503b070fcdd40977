-- ===== src/Serving/Rounds.antt =====
-- Rounds of the main loop, and what they leave of the pool of sockets.
use secoli_sced.Base.{
  Bytes, ℕ, zero, suc, ◌<◌, ◌≡◌, refl, Bool, true, false, List, [], ◌∷◌, Option, none, some,
  if◌then◌else◌, ℤ, pos, int_limit, is_neg, length, arith,
}
use secoli_sced.Client.{Client, client_check_timeout, client_get_destroy}
use secoli_sced.Commands.Inbox.{Outcome, drained, destroyed, exited, unfinished, handle_messages}
use secoli_sced.Pool.Polling.{sock2_poll_clients-IsShared, sock2_destroy_client_socket-IsShared}
use secoli_sced.Pool.Shared.{IsShared}
use secoli_sced.Pool.Starting.{entries_from, length-entries_from, sock2_init-IsShared}
use secoli_sced.Pool.{
  Pool, Visit, sock2_init, sock2_poll_clients, clients_getfirst, clients_getnext,
}
use secoli_sced.Queue.Loops.{rounds}
use secoli_sced.Queue.{Queue}
use secoli_sced.Search.{Glib}
use secoli_sced.Serving.{
  Daemon, put_struct, destroy_client, put_clients, check_client, check_from, clients_check_timeouts,
  after_messages, serve_from, parse_all_client_messages,
}
use secoli_sced.World.{World, Host}
use secoli_sced.Xsqlite.{Sqlite}

module _ (S : Sqlite) (G : Glib) (H : Host G) where
  -- The calls of a round. sock2_poll_clients leaves the structs of the clients as it likes: it
  -- creates clients and adds messages to them.
  pub data Step : Type 0 where
    checked : ℤ → Step
    polled : ℤ → List Visit → (ℕ → Client G) → Step
    parsed : (ℕ → ℕ → Option Bytes) → ℕ → Step

  abbrev state_left : Option (Outcome × Daemon S G H) → Option (Daemon S G H)
  state_left none = none
  state_left (some (o, d)) = some d

  abbrev step : Step → Daemon S G H → Option (Daemon S G H)
  step (checked t_diff) d = some (clients_check_timeouts S G H t_diff d).1
  step (polled selected vs left) d =
      some (record d { pool = (sock2_poll_clients (G ℕ) selected vs d.pool).1; structs = left })
  step (parsed memory messages) d = state_left (parse_all_client_messages S G H memory messages d)

  abbrev pub steps : List Step → Option (Daemon S G H) → Option (Daemon S G H)
  steps cs none = none
  steps [] (some d) = some d
  steps (c ∷ cs) (some d) = steps cs (step c d)

  -- Where nothing has faulted, the entries are shared between the open and the free ones.
  abbrev pub AreShared : List ℕ → Option (Daemon S G H) → Type 0
  AreShared all none = Unit {0}
  AreShared all (some d) = IsShared (G ℕ) all d.pool.open_sockets d.pool.free_sockets

  module _ (all : List ℕ) (room : suc (length all) < int_limit) where
    abbrev Keeps : Daemon S G H → Type 0
    Keeps d = IsShared (G ℕ) all d.pool.open_sockets d.pool.free_sockets

    put_struct-IsShared :
        (c : ℕ) (client : Option (Client G)) (d : Daemon S G H)
        → Keeps d
        → Keeps (put_struct S G H c client d)
    put_struct-IsShared c none d h = h
    put_struct-IsShared c (some client) d h = h

    destroy_client-IsShared :
        (c : ℕ) (d : Daemon S G H) → Keeps d → Keeps (destroy_client S G H c d)
    destroy_client-IsShared c d h = sock2_destroy_client_socket-IsShared (G ℕ) all room c d.pool h

    if-Keeps : (b : Bool) (d e : Daemon S G H) → Keeps d → Keeps e → Keeps (if b then d else e)
    if-Keeps true d e h k = h
    if-Keeps false d e h k = k

    check_client-IsShared :
        (t_diff : ℤ) (c : ℕ) (d : Daemon S G H) → Keeps d → Keeps (check_client S G H t_diff c d)
    unfolding check_client
    check_client-IsShared t_diff c d h =
        let client = (client_check_timeout G (some (d.structs c)) t_diff).1 in
        let put = put_struct-IsShared c client d h in
        if-Keeps (client_get_destroy G client)
          (destroy_client S G H c (put_struct S G H c client d)) (put_struct S G H c client d)
          (destroy_client-IsShared c (put_struct S G H c client d) put) put

    check_from-IsShared :
        (t_diff : ℤ) (fuel : ℕ) (next : Option ℕ) (d : Daemon S G H)
        → Keeps d
        → Keeps (check_from S G H t_diff fuel next d)
    unfolding check_from
    check_from-IsShared t_diff zero next d h = h
    check_from-IsShared t_diff (suc fuel) none d h = h
    check_from-IsShared t_diff (suc fuel) (some c) d h =
        let d' = check_client S G H t_diff c d in
        let r = clients_getnext (G ℕ) d'.pool.clients_queue in
        check_from-IsShared t_diff fuel r.0 (put_clients S G H r.1 d')
          (check_client-IsShared t_diff c d h)

    clients_check_timeouts-IsShared :
        (t_diff : ℤ) (d : Daemon S G H) → Keeps d → Keeps (clients_check_timeouts S G H t_diff d).1
    unfolding clients_check_timeouts
    clients_check_timeouts-IsShared t_diff d h = go d.pool.clients_queue refl
      where
        go :
            (q : Option (Queue (G ℕ)))
            → d.pool.clients_queue ≡ q
            → Keeps (clients_check_timeouts S G H t_diff d).1
        go none e = rw (e, clients_check_timeouts) h
        go (some q) e =
            let r = clients_getfirst (G ℕ) (some q) in
            rw (e, clients_check_timeouts)
              (check_from-IsShared t_diff (rounds (G ℕ) r.1) r.0 (put_clients S G H r.1 d) h)

    after_messages-IsShared :
        (c : ℕ) (d : Daemon S G H) (o : Outcome) (w : World G S)
        → Keeps d
        → Keeps (after_messages S G H c d o w)
    after_messages-IsShared c d destroyed w h =
        destroy_client-IsShared c (put_struct S G H c (some w.client) (record d { world = w })) h
    after_messages-IsShared c d drained w h = h
    after_messages-IsShared c d exited w h = h
    after_messages-IsShared c d unfinished w h = h

    -- One turn of the loop, where the rest of it keeps what it finds.
    turn-AreShared :
        (memory : ℕ → ℕ → Option Bytes) (messages fuel c : ℕ) (d : Daemon S G H)
        → Keeps d
        → ((next : Option ℕ) (e : Daemon S G H)
            → Keeps e
            → AreShared all (state_left (serve_from S G H memory messages fuel next e)))
        → AreShared all (state_left (serve_from S G H memory messages (suc fuel) (some c) d))
    unfolding serve_from
    turn-AreShared memory messages fuel c d h rest =
        go (handle_messages S G H (memory fuel) messages (record d.world { client = d.structs c }))
          refl
      where
        next :
            (o : Outcome) (w : World G S)
            → (let d' = after_messages S G H c d o w in
                let r = clients_getnext (G ℕ) d'.pool.clients_queue in
                AreShared all (
                  state_left
                    (serve_from S G H memory messages fuel r.0 (put_clients S G H r.1 d'))))
        next o w =
            let d' = after_messages S G H c d o w in
            let r = clients_getnext (G ℕ) d'.pool.clients_queue in
            rest r.0 (put_clients S G H r.1 d') (after_messages-IsShared c d o w h)

        go :
            (r : Option (Outcome × World G S))
            → handle_messages S G H (memory fuel) messages (record d.world { client = d.structs c })
              ≡ r
            → AreShared all (state_left (serve_from S G H memory messages (suc fuel) (some c) d))
        go none e = rw (e, serve_from) tt
        go (some (drained, w)) e = rw (e, serve_from) (next drained w)
        go (some (destroyed, w)) e = rw (e, serve_from) (next destroyed w)
        go (some (exited, w)) e = rw (e, serve_from) h
        go (some (unfinished, w)) e = rw (e, serve_from) h

    serve_from-AreShared :
        (memory : ℕ → ℕ → Option Bytes) (messages fuel : ℕ) (next : Option ℕ) (d : Daemon S G H)
        → Keeps d
        → AreShared all (state_left (serve_from S G H memory messages fuel next d))
    unfolding serve_from
    serve_from-AreShared memory messages zero next d h = h
    serve_from-AreShared memory messages (suc fuel) none d h = h
    serve_from-AreShared memory messages (suc fuel) (some c) d h =
        turn-AreShared memory messages fuel c d h
          λ next e k. serve_from-AreShared memory messages fuel next e k

    step-AreShared : (s : Step) (d : Daemon S G H) → Keeps d → AreShared all (step s d)
    unfolding parse_all_client_messages
    step-AreShared (checked t_diff) d h = clients_check_timeouts-IsShared t_diff d h
    step-AreShared (polled selected vs left) d h =
        sock2_poll_clients-IsShared (G ℕ) all room selected vs d.pool h
    step-AreShared (parsed memory messages) d h =
        let r = clients_getfirst (G ℕ) d.pool.clients_queue in
        serve_from-AreShared memory messages (rounds (G ℕ) r.1) r.0 (put_clients S G H r.1 d) h

    steps-AreShared :
        (cs : List Step) (d : Option (Daemon S G H)) → AreShared all d → AreShared all (steps cs d)
    steps-AreShared cs none h = tt
    steps-AreShared [] (some d) h = h
    steps-AreShared (c ∷ cs) (some d) h = steps-AreShared cs (step c d) (step-AreShared c d h)

  -- Where sock2_create_inet_socket returns no negative number and memory is found for all, sock2_init
  -- of `n + 1` entries returns 0 and leaves a pool in which, after any calls of
  -- clients_check_timeouts, sock2_poll_clients and parse_all_client_messages in which no message
  -- faults, whatever the world, the clients, select, accept, client_create and the reading give, the
  -- open and the free entries together are still the entries 0 to `n`, each once. `n + 2` is an
  -- int.
  pub sock2_init-steps :
      (n : ℕ) (created : ℤ) (p : Pool (G ℕ)) (world : World G S) (clients : ℕ → Client G)
      (cs : List Step)
      → is_neg created ≡ false
      → suc (suc n) < int_limit
      → (q : Pool (G ℕ)) × (sock2_init (G ℕ) (suc n) created (true, true, true, true) p
          ≡ some (pos 0, q))
        × AreShared
            (entries_from 0 (suc n))
            (steps cs (some (record { world = world; pool = q; structs = clients })))
  sock2_init-steps n created p world clients cs valid room =
      let (q, e, h) = sock2_init-IsShared (G ℕ) n created p valid room in
      let count = length-entries_from 0 (suc n) in
      (
        q,
        e,
        steps-AreShared (entries_from 0 (suc n)) (omega (arith, count)) cs
            (some (record { world = world; pool = q; structs = clients })) h,
      )
