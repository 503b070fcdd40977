-- ===== src/Pool.antt =====
-- src/sock2.c and the list of clients of src/client.c: which entry of the pool of sockets stands in
-- which queue. An entry is its index in the pool, a client its address, which is not 0.
pub mod Entries
pub mod Shared
pub mod Polling
pub mod Starting
mod Tests
use secoli_sced.Base.{
  ℕ, zero, suc, ◌-◌, Bool, true, false, not, List, [], ◌∷◌, Option, none, some, if◌then◌else◌, ◌==◌,
  ℤ, pos, minus_one, is_neg, eqb_ℤ,
}
use secoli_sced.Queue.Glib.{GQueue}
use secoli_sced.Queue.Loops.{queue_find, queue_remove}
use secoli_sced.Queue.{
  Queue, QueueDirection, qd_prev, queue_create, queue_rewind, queue_get, queue_get_next, queue_next,
  queue_insert_node, queue_add_node, queue_push, queue_pop, queue_delete_node, queue_get_length,
  queue_get_first,
}

pub record ClientSocketMap : Type 0 where
  pub socket : ℤ
  pub client : Option ℕ

-- What stands behind a visit of an entry in sock2_poll_clients: FD_ISSET, what accept and
-- client_create return, and what sock2_read_from_client returns.
pub record Visit : Type 0 where
  pub is_set : Bool
  pub new_sock : ℤ
  pub created : Option ℕ
  pub err : ℤ

abbrev pub update_at : (ℕ → ClientSocketMap) → ℕ → ClientSocketMap → ℕ → ClientSocketMap
update_at entries i entry j = if j == i then entry else entries j

-- The entries as calloc gives them.
abbrev pub zeroed : ℕ → ClientSocketMap
zeroed i = record { socket = pos 0; client = none }

abbrev pub same_node : ℕ → ℕ → Bool
same_node a b = a == b

-- `byClient`, on an entry and a client.
unfoldable pub by_client : (ℕ → ClientSocketMap) → ℕ → ℕ → Bool
by_client entries csm client = elim (entries csm).client [ none ↦ false | some c ↦ c == client ]

module _ (G : GQueue ℕ) where
  -- The static variables. `active_fd_set` says which descriptors are in it.
  pub record Pool : Type 0 where
    pub open_sockets : Option (Queue G)
    pub free_sockets : Option (Queue G)
    pub clients_queue : Option (Queue G)
    pub entries : ℕ → ClientSocketMap
    pub active_fd_set : ℤ → Bool
    pub listening_fd : ℤ

  abbrev pub fd_put : Bool → ℤ → (ℤ → Bool) → ℤ → Bool
  fd_put b fd set other = if eqb_ℤ other fd then b else set other

  unfoldable pub clients_init_all : Bool → ℤ × Option (Queue G)
  clients_init_all memory = elim (queue_create G memory) [
    | none ↦ (minus_one, none)
    | some q ↦ (pos 0, some q)
  ]

  unfoldable pub clients_add_client : Option (Queue G) → ℕ → Option ℕ × Option (Queue G)
  clients_add_client clients c =
      let (status, clients') = queue_push G clients (some c) in
      (if eqb_ℤ status (pos 0) then some c else none, clients')

  unfoldable pub clients_remove_client :
      Option (Queue G) → Option ℕ → QueueDirection → Option ℕ × Option (Queue G)
  clients_remove_client clients c direction = queue_remove G same_node clients c direction

  unfoldable pub clients_getfirst : Option (Queue G) → Option ℕ × Option (Queue G)
  clients_getfirst clients = queue_get_first G clients

  unfoldable pub clients_getnext : Option (Queue G) → Option ℕ × Option (Queue G)
  clients_getnext clients = queue_get_next G clients

  unfoldable pub clients_client_count : Option (Queue G) → ℤ
  clients_client_count clients = queue_get_length G clients

  -- The loop of sock2_init over the pool, from entry `i` on for `n` entries.
  unfoldable pub insert_entries : ℕ → ℕ → Option (Queue G) → Option (Queue G)
  insert_entries i zero free = free
  insert_entries i (suc n) free = insert_entries (suc i) n (queue_insert_node G free (some i)).1

  -- sock2_init with `fd_setsize` entries. `created` is what sock2_create_inet_socket returns, which
  -- puts a new socket alone into the set, and the flags say what finds memory: the entries, the two
  -- queues and the message buffer, which is not in the record. A queue without entries is a fault.
  unfoldable pub sock2_init : ℕ → ℤ → Bool × Bool × Bool × Bool → Pool → Option (ℤ × Pool)
  sock2_init fd_setsize created (pool_memory, free_memory, open_memory, ring_memory) p =
      let p1 = record p { listening_fd = created; active_fd_set = λ fd. eqb_ℤ fd created } in
      if is_neg created
      then some (minus_one, record p { listening_fd = created })
      else if not pool_memory
      then some (minus_one, p1)
      else (elim (queue_create G free_memory) [
        | none ↦ some (minus_one, record p1 { entries = zeroed; free_sockets = none })
        | some empty ↦
            let free = insert_entries 0 fd_setsize (some empty) in
            elim (queue_create G open_memory) [
              | none ↦ some (
                minus_one,
                record p1 { entries = zeroed; free_sockets = free; open_sockets = none },
              )
              | some fresh ↦
                  let (popped, free') = queue_pop G free in
                  elim popped [
                    | none ↦ none
                    | some i ↦ some (
                      if ring_memory then pos 0 else minus_one,
                      record p1 {
                        free_sockets = free';
                        open_sockets = (queue_add_node G (some fresh) (some i)).1;
                        entries = update_at zeroed i (record { socket = created; client = none });
                      },
                    )
                  ]
            ]
      ])

  -- What client_destroy does to the client itself is left out.
  unfoldable pub sock2_destroy_socket : Pool → Pool
  sock2_destroy_socket p = elim (queue_get G p.open_sockets) [
    | none ↦ p
    | some i ↦
        let entry = p.entries i in
        let (taken, open') = queue_delete_node G p.open_sockets qd_prev in
        record p {
          clients_queue = elim entry.client [
            | none ↦ p.clients_queue
            | some c ↦ (clients_remove_client p.clients_queue (some c) qd_prev).1
          ];
          entries = update_at p.entries i (record { socket = entry.socket; client = none });
          active_fd_set = fd_put false entry.socket p.active_fd_set;
          open_sockets = open';
          free_sockets = (queue_push G p.free_sockets taken).1;
        }
  ]

  unfoldable pub sock2_destroy_client_socket : ℕ → Pool → ℤ × Pool
  sock2_destroy_client_socket client p =
      let (entry, open') =
        queue_find G (queue_rewind G p.open_sockets).1 (some (by_client p.entries)) (some client) in
      let p' = record p { open_sockets = open' } in
      elim entry [ none ↦ (minus_one, p') | some c ↦ (pos 0, sock2_destroy_socket p') ]

  -- What follows queue_pop where a client has come: `popped` is what it returns.
  unfoldable pub open_client : ℤ → ℕ → Option ℕ → Pool → ℤ × Pool
  open_client new_sock c none p = (minus_one, p)
  open_client new_sock c (some i) p =
      let (added, clients') = clients_add_client p.clients_queue c in
      (
        elim added [ none ↦ minus_one | some a ↦ pos 0 ],
        record p {
          entries = update_at p.entries i (record { socket = new_sock; client = some c });
          open_sockets = (queue_next G (queue_insert_node G p.open_sockets (some i)).1).1;
          clients_queue = clients';
        },
      )

  -- What sock2_poll_clients does with the socket that listens: -1 where it returns.
  unfoldable pub accept_client : Visit → Pool → ℤ × Pool
  accept_client v p =
      if is_neg v.new_sock
      then (minus_one, p)
      else (let p1 = record p { active_fd_set = fd_put true v.new_sock p.active_fd_set } in
          elim v.created [
            | none ↦ (minus_one, p1)
            | some c ↦
                let (popped, free') = queue_pop G p.free_sockets in
                open_client v.new_sock c popped (record p1 { free_sockets = free' })
          ])

  -- The body of the loop for one entry.
  unfoldable pub visit : Visit → ℕ → Pool → ℤ × Pool
  visit v i p =
      if not v.is_set
      then (pos 0, p)
      else if eqb_ℤ (p.entries i).socket p.listening_fd
      then accept_client v p
      else if is_neg v.err
      then (pos 0, sock2_destroy_socket p)
      else (pos 0, p)

  -- The loop, from the entry at the cursor on; there is a visit for each entry that it comes to.
  unfoldable pub poll_from : List Visit → Option ℕ → Pool → ℤ × Pool
  poll_from [] client_socket p = (pos 0, p)
  poll_from (v ∷ vs) none p = (pos 0, p)
  poll_from (v ∷ vs) (some i) p =
      let (status, p') = visit v i p in
      let (next, open') = queue_get_next G p'.open_sockets in
      let rest = poll_from vs next (record p' { open_sockets = open' }) in
      if is_neg status then (status, p') else rest

  -- `selected` is what select returns.
  unfoldable pub sock2_poll_clients : ℤ → List Visit → Pool → ℤ × Pool
  sock2_poll_clients selected vs p =
      if is_neg selected
      then (minus_one, p)
      else (let open' = (queue_rewind G p.open_sockets).1 in
          poll_from vs (queue_get G open') (record p { open_sockets = open' }))
