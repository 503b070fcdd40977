-- ===== src/Pool/Tests.antt =====
-- A pool of two entries over the list queue, and a client that comes.
use secoli_sced.Base.{ℕ, ◌≡◌, refl, true, false, [], ◌∷◌, Option, none, some, ℤ, pos, minus_one}
use secoli_sced.Pool.{
  Pool, Visit, sock2_init, sock2_poll_clients, insert_entries, poll_from, visit, accept_client,
  open_client, clients_add_client, clients_remove_client, sock2_destroy_socket,
}
use secoli_sced.Queue.Glib.{list_queue}
use secoli_sced.Queue.Loops.{queue_remove, remove_from, skip_rest}
use secoli_sced.Queue.{
  Queue, queue_create, queue_pop, queue_end, queue_insert_node, queue_prev, queue_next,
  queue_delete_node, queue_get, queue_rewind, queue_add_node, queue_next_plus_one, queue_get_length,
  queue_get_next, queue_push,
}

abbrev before : Pool (list_queue ℕ)
before = record {
  open_sockets = none;
  free_sockets = none;
  clients_queue = some (record { queue = []; position = minus_one });
  entries = λ i. record { socket = pos 0; client = none };
  active_fd_set = λ fd. false;
  listening_fd = pos 0;
}

abbrev accepted : ℤ → ℕ → Visit
accepted fd c = record { is_set = true; new_sock = fd; created = some c; err = pos 0 }

-- The entries in the two queues, and the clients.
abbrev state_of :
    Option (ℤ × Pool (list_queue ℕ))
    → Option (Queue (list_queue ℕ)) × Option (Queue (list_queue ℕ)) × Option (Queue (list_queue ℕ))
state_of none = (none, none, none)
state_of (some (s, p)) = (p.open_sockets, p.free_sockets, p.clients_queue)

abbrev after : Visit → Option (ℤ × Pool (list_queue ℕ)) → Option (ℤ × Pool (list_queue ℕ))
after v none = none
after v (some (s, p)) = some (sock2_poll_clients (list_queue ℕ) (pos 1) (v ∷ []) p)

one_client :
    state_of (
      after
        (accepted (pos 5) 70)
        (sock2_init (list_queue ℕ) 2 (pos 3) (true, true, true, true) before))
    ≡ (
      some (record { queue = some 1 ∷ some 0 ∷ []; position = pos 1 }),
      some (record { queue = []; position = pos 0 }),
      some (record { queue = some 70 ∷ []; position = pos 0 }),
    )
unfolding sock2_init queue_create queue_pop queue_end insert_entries queue_insert_node queue_prev
    queue_next queue_delete_node sock2_poll_clients poll_from queue_get queue_rewind queue_add_node
    queue_next_plus_one visit accept_client open_client clients_add_client clients_remove_client
    sock2_destroy_socket queue_remove remove_from skip_rest queue_get_length queue_get_next
    queue_push
one_client = refl
