-- ===== src/Pool/Polling.antt =====
-- What each call of src/sock2.c on the pool leaves of it.
use secoli_sced.Base.{
  ℕ, suc, ◌-◌, ◌<◌, ◌≡◌, refl, inl, inr, Bool, true, false, Bool-cases, not, List, [], ◌∷◌, Option,
  none, some, if◌then◌else◌, length, ℤ, pos, minus_one, int_limit, is_neg, eqb_ℤ,
}
use secoli_sced.Pool.{
  Pool, Visit, by_client, sock2_destroy_socket, sock2_destroy_client_socket, open_client,
  accept_client, fd_put, visit, poll_from, sock2_poll_clients,
}
use secoli_sced.Pool.Shared.{
  IsShared, shared, queue_next-IsShared, queue_get_next-next, queue_rewind-IsShared, move_to_free,
  Popped, popped,
}
use secoli_sced.Queue.Find.{Found, queue_find-Found}
use secoli_sced.Queue.Loops.{find_from, queue_find}
use secoli_sced.Queue.Glib.{GQueue}
use secoli_sced.Queue.Holds.{Holds, not_null, queue_get-Holds, queue_rewind-Holds}
use secoli_sced.Queue.Walk.{split_first}
use secoli_sced.Queue.{Queue, queue_rewind, queue_get, queue_get_next, queue_pop}

module _ (G : GQueue ℕ) (all : List ℕ) (room : suc (length all) < int_limit) where
  -- The entries of a pool are shared.
  abbrev Keeps : Pool G → Type 0
  Keeps p = IsShared G all p.open_sockets p.free_sockets

  sock2_destroy_socket-IsShared : (p : Pool G) → Keeps p → Keeps (sock2_destroy_socket G p)
  unfolding sock2_destroy_socket
  sock2_destroy_socket-IsShared p h = go (queue_get G p.open_sockets) refl
    where
      go : (o : Option ℕ) → queue_get G p.open_sockets ≡ o → Keeps (sock2_destroy_socket G p)
      go none e = rw (e, sock2_destroy_socket) h
      go (some i) e =
          rw (e, sock2_destroy_socket) (move_to_free G all p.open_sockets p.free_sockets i h room e)

  -- The loop of the search leaves the nodes as they are, wherever it leaves the cursor.
  Found-Holds :
      (d : ℕ) (xs : List ℕ) (s : Option (List ℕ × ℕ × List ℕ)) (r : Option ℕ × Option (Queue G))
      → Found G [] d xs s r
      → (m : ℕ) × Holds G xs (pos m) r.1
  Found-Holds d xs none (v, q) h = (length xs - 1, h.1)
  Found-Holds d xs (some (before, a, behind)) (v, q) h = (length before, h.1)

  find_nowhere :
      (compare : ℕ → ℕ → Bool) (d : ℕ) (q : Option (Queue G))
      → Holds G [] (pos 0) q
      → queue_find G q (some compare) (some d) ≡ (none, q)
  unfolding queue_find find_from
  find_nowhere compare d (some q) h =
      let e : queue_get G (some q) ≡ none = queue_get-Holds G h in rw e refl
  find_nowhere compare d none h = absurd (not_null G h refl)

  queue_find-Holds :
      (compare : ℕ → ℕ → Bool) (d : ℕ) (q : Option (Queue G)) (xs : List ℕ)
      → Holds G xs (pos 0) q
      → (m : ℕ) × Holds G xs (pos m) (queue_find G q (some compare) (some d)).1
  queue_find-Holds compare d q [] h = (0, rw (find_nowhere compare d q h) h)
  queue_find-Holds compare d q (x ∷ xs) h =
      Found-Holds d (x ∷ xs) (split_first (λ n. compare n d) (x ∷ xs))
        (queue_find G q (some compare) (some d)) (queue_find-Found G compare d q [] x xs h)

  -- What a call returns keeps it where both branches do.
  if-Keeps : (b : Bool) (x y : ℤ × Pool G) → Keeps x.1 → Keeps y.1 → Keeps (if b then x else y).1
  if-Keeps true x y h k = h
  if-Keeps false x y h k = k

  case-Keeps :
      (o : Option ℕ) (x : ℤ × Pool G) (f : ℕ → ℤ × Pool G)
      → Keeps x.1
      → ((n : ℕ) → Keeps (f n).1)
      → Keeps (elim o as (λ r. ℤ × Pool G) [ none ↦ x | some n ↦ f n ]).1
  case-Keeps none x f h k = h
  case-Keeps (some n) x f h k = k n

  pub sock2_destroy_client_socket-IsShared :
      (client : ℕ) (p : Pool G) → Keeps p → Keeps (sock2_destroy_client_socket G client p).1
  unfolding sock2_destroy_client_socket
  sock2_destroy_client_socket-IsShared client p (shared xs ys n m h k l c) =
      let (s, h') = queue_rewind-Holds G h in
      let (entry, open') =
        queue_find G (queue_rewind G p.open_sockets).1 (some (by_client p.entries)) (some client) in
      let p' : Pool G = record p { open_sockets = open' } in
      let (n', h'') =
        queue_find-Holds (by_client p.entries) client (queue_rewind G p.open_sockets).1 xs h' in
      let found : Keeps p' = shared xs ys n' m h'' k l c in
      case-Keeps entry (minus_one, p') (λ i. (pos 0, sock2_destroy_socket G p')) found
        (λ i. sock2_destroy_socket-IsShared p' found)

  open_client-IsShared :
      (new_sock : ℤ) (c : ℕ) (p : Pool G) (r : Option ℕ × Option (Queue G))
      → Popped G all p.open_sockets r
      → Keeps (open_client G new_sock c r.0 (record p { free_sockets = r.1 })).1
  unfolding open_client Popped
  open_client-IsShared new_sock c p (none, f) h = h
  open_client-IsShared new_sock c p (some i, f) h = queue_next-IsShared G h

  accept_client-IsShared : (v : Visit) (p : Pool G) → Keeps p → Keeps (accept_client G v p).1
  unfolding accept_client
  accept_client-IsShared v p h =
      let p1 : Pool G = record p { active_fd_set = fd_put G true v.new_sock p.active_fd_set } in
      if-Keeps (is_neg v.new_sock) (minus_one, p) _ h
        (case-Keeps v.created (minus_one, p1) _ h
          (λ c.
            open_client-IsShared v.new_sock c p1 (queue_pop G p.free_sockets)
              (popped G all p.open_sockets p.free_sockets h room)))

  visit-IsShared : (v : Visit) (i : ℕ) (p : Pool G) → Keeps p → Keeps (visit G v i p).1
  unfolding visit
  visit-IsShared v i p h =
      if-Keeps (not v.is_set) (pos 0, p) _ h
        (if-Keeps (eqb_ℤ (p.entries i).socket p.listening_fd) (accept_client G v p) _
          (accept_client-IsShared v p h)
          (if-Keeps (is_neg v.err) (pos 0, sock2_destroy_socket G p) (pos 0, p)
            (sock2_destroy_socket-IsShared p h) h))

  poll_from-IsShared :
      (vs : List Visit) (next : Option ℕ) (p : Pool G) → Keeps p → Keeps (poll_from G vs next p).1
  unfolding poll_from
  poll_from-IsShared [] next p h = h
  poll_from-IsShared (v ∷ vs) none p h = h
  poll_from-IsShared (v ∷ vs) (some i) p h =
      let p' = (visit G v i p).1 in
      let h' = visit-IsShared v i p h in
      let rest =
        poll_from-IsShared vs (queue_get_next G p'.open_sockets).0
          (record p' { open_sockets = (queue_get_next G p'.open_sockets).1 })
          (rw (queue_get_next-next G p'.open_sockets) (queue_next-IsShared G h')) in
      elim (Bool-cases (is_neg (visit G v i p).0)) [
        | inl e ↦ rw (e, poll_from) h'
        | inr e ↦ rw (e, poll_from) rest
      ]

  pub sock2_poll_clients-IsShared :
      (selected : ℤ) (vs : List Visit) (p : Pool G)
      → Keeps p
      → Keeps (sock2_poll_clients G selected vs p).1
  unfolding sock2_poll_clients
  sock2_poll_clients-IsShared selected vs p h = elim (Bool-cases (is_neg selected)) [
    | inl e ↦ rw (e, sock2_poll_clients) h
    | inr e ↦
        rw (e, sock2_poll_clients)
          (poll_from-IsShared vs (queue_get G (queue_rewind G p.open_sockets).1)
            (record p { open_sockets = (queue_rewind G p.open_sockets).1 })
            (queue_rewind-IsShared G h))
  ]
