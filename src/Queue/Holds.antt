-- ===== src/Queue/Holds.antt =====
-- What the basic calls of src/queue.c do to a queue that holds the nodes `xs`, none of them NULL,
-- with its cursor at `p`.
use secoli_sced.Base.{
  ℕ, suc, ◌-◌, ◌<◌, ◌≤◌, ◌≡◌, ◌≢◌, refl, ap, ◌∙◌, List, [], ◌∷◌, map, Option, none, some, arith,
  length, get_elem?, length-map, erase_idx, ℤ, pos, negsuc, minus_one, int_limit, ◌-ℤ◌, IsInt,
  join-get_elem?-some, erase_idx-map,
}
use secoli_sced.Queue.Glib.{GQueue}
use secoli_sced.Queue.{
  Queue, queue_get_length, queue_rewind, queue_end, queue_next, queue_prev, queue_get,
  queue_get_next, queue_get_first,
}

module _ {A : Type 0} (G : GQueue A) where
  pub data Holds (xs : List A) (p : ℤ) : Option (Queue G) → Type 0 where
    holds :
        {q : Queue G}
        → G.contents q.queue ≡ map some xs
        → q.position ≡ p
        → IsInt p
        → length xs < int_limit
        → Holds xs p (some q)

  -- The nodes `xs`, with the cursor before the first node only where there is no node: a new queue
  -- is so, and the calls that add at the end and take from the front leave it so.
  pub data Waits (xs : List A) (q : Option (Queue G)) : Type 0 where
    at_node : (n : ℕ) → Holds xs (pos n) q → Waits xs q
    before : (n : ℕ) → xs ≡ [] → Holds xs (negsuc n) q → Waits xs q

  pub not_null : {xs : List A} {p : ℤ} {q : Option (Queue G)} → Holds xs p q → q ≢ none
  not_null (holds e at i f) h = cc

  pub get_length-eq :
      (q : Queue G) (xs : List A)
      → G.contents q.queue ≡ map some xs
      → G.get_length q.queue ≡ length xs
  get_length-eq q xs e = G.get_length-length q.queue ∙ ap length e ∙ length-map (λ x. some x) xs

  pub queue_get_length-Holds :
      {q : Option (Queue G)} {xs : List A} {p : ℤ}
      → Holds xs p q
      → queue_get_length G q ≡ pos (length xs)
  unfolding queue_get_length
  queue_get_length-Holds {xs} (holds {q} e at i f) = ground (arith, get_length-eq q xs e)

  pub pop_nth-Holds :
      (c : G.Carrier) (xs : List A) (n : ℕ)
      → G.contents c ≡ map some xs
      → ((G.pop_nth c n).0 ≡ get_elem? xs n)
        × (G.contents (G.pop_nth c n).1 ≡ map some (erase_idx xs n))
  pop_nth-Holds c xs n e = (
    G.pop_nth-value c n ∙ rw e (join-get_elem?-some xs n),
    G.pop_nth-rest c n ∙ rw e (erase_idx-map (λ x. some x) xs n),
  )

  queue_next-eq :
      (q : Queue G) (xs : List A) (n : ℕ)
      → G.contents q.queue ≡ map some xs
      → length xs < int_limit
      → q.position ≡ pos n
      → suc n < length xs
      → queue_next G (some q) ≡ (pos 0, some (record q { position = pos (suc n) }))
  unfolding queue_next
  queue_next-eq q xs n e f at h = ground (arith, get_length-eq q xs e)

  pub queue_get-Holds :
      {q : Option (Queue G)} {xs : List A} {n : ℕ}
      → Holds xs (pos n) q
      → queue_get G q ≡ get_elem? xs n
  unfolding queue_get
  queue_get-Holds {xs} {n} (holds {q} e at i f) =
      ground (arith, G.peek_nth-get_elem? q.queue n, join-get_elem?-some xs n)

  pub queue_rewind-Holds :
      {q : Option (Queue G)} {xs : List A} {n : ℕ}
      → Holds xs (pos n) q
      → ((queue_rewind G q).0 ≡ pos 0) × Holds xs (pos 0) (queue_rewind G q).1
  unfolding queue_rewind
  queue_rewind-Holds {xs} {n} (holds {q} e at i f) =
      (refl, holds (ground arith) (ground arith) (omega arith) f)

  -- Rewinding an empty queue, or one whose cursor is before the first node, leaves it as it is.
  pub queue_rewind-before :
      {q : Option (Queue G)} {xs : List A} {n : ℕ}
      → Holds xs (negsuc n) q
      → queue_rewind G q ≡ (pos 0, q)
  unfolding queue_rewind
  queue_rewind-before {xs} {n} (holds {q} e at i f) = ground arith

  pub queue_next-inside :
      {q : Option (Queue G)} {xs : List A} {n : ℕ}
      → Holds xs (pos n) q
      → suc n < length xs
      → ((queue_next G q).0 ≡ pos 0) × Holds xs (pos (suc n)) (queue_next G q).1
  queue_next-inside {xs} {n} (holds {q} e at i f) h =
      rw (queue_next-eq q xs n e f at h) (refl, holds e refl (omega arith) f)

  pub queue_next_last :
      {q : Option (Queue G)} {xs : List A} {n : ℕ}
      → Holds xs (pos n) q
      → length xs ≤ suc n
      → queue_next G q ≡ (minus_one, q)
  unfolding queue_next
  queue_next_last {xs} {n} (holds {q} e at i f) h = ground (arith, get_length-eq q xs e)

  pub queue_prev-Holds :
      {q : Option (Queue G)} {xs : List A} {n : ℕ}
      → Holds xs (pos n) q
      → ((queue_prev G q).0 ≡ pos 0) × Holds xs (pos (n - 1)) (queue_prev G q).1
  unfolding queue_prev
  queue_prev-Holds {xs} {n} (holds {q} e at i f) =
      (refl, holds (ground arith) (ground arith) (omega arith) f)

  -- `queue_get_first` and `queue_get_next` walk from the first node to the last.
  pub queue_get_first-Holds :
      {q : Option (Queue G)} {xs : List A} {n : ℕ}
      → Holds xs (pos n) q
      → ((queue_get_first G q).0 ≡ get_elem? xs 0) × Holds xs (pos 0) (queue_get_first G q).1
  unfolding queue_get_first
  queue_get_first-Holds h = let (s, h') = queue_rewind-Holds h in rw s (queue_get-Holds h', h')

  queue_get-before :
      {q : Option (Queue G)} {xs : List A} {n : ℕ} → Holds xs (negsuc n) q → queue_get G q ≡ none
  unfolding queue_get
  queue_get-before {xs} {n} (holds {q} e at i f) = ground arith

  pub queue_get_first-Waits :
      {q : Option (Queue G)} {x : A} {xs : List A}
      → Waits (x ∷ xs) q
      → ((queue_get_first G q).0 ≡ some x) × Holds (x ∷ xs) (pos 0) (queue_get_first G q).1
  queue_get_first-Waits (at_node n h) = queue_get_first-Holds h
  queue_get_first-Waits (before n e h) = cc e

  pub queue_get_first-none :
      {q : Option (Queue G)}
      → Waits [] q
      → ((queue_get_first G q).0 ≡ none) × ((p : ℤ) × Holds [] p (queue_get_first G q).1)
  unfolding queue_get_first
  queue_get_first-none (at_node n h) = let (v, h') = queue_get_first-Holds h in (v, (pos 0, h'))
  queue_get_first-none (before n e h) =
      rw (queue_rewind-before h, queue_get_first) (queue_get-before h, (negsuc n, h))

  pub queue_get_next-inside :
      {q : Option (Queue G)} {xs : List A} {n : ℕ}
      → Holds xs (pos n) q
      → suc n < length xs
      → ((queue_get_next G q).0 ≡ get_elem? xs (suc n))
        × Holds xs (pos (suc n)) (queue_get_next G q).1
  unfolding queue_get_next
  queue_get_next-inside h l = let (s, h') = queue_next-inside h l in rw s (queue_get-Holds h', h')

  pub queue_get_next_last :
      {q : Option (Queue G)} {xs : List A} {n : ℕ}
      → Holds xs (pos n) q
      → length xs ≤ suc n
      → queue_get_next G q ≡ (none, q)
  unfolding queue_get_next
  queue_get_next_last h l = rw (queue_next_last h l)

  pub queue_end-Holds :
      {q : Option (Queue G)} {xs : List A} {p : ℤ}
      → Holds xs p q
      → ((queue_end G q).0 ≡ pos 0) × Holds xs (pos (length xs) -ℤ pos 1) (queue_end G q).1
  unfolding queue_end
  queue_end-Holds {xs} {p} (holds {q} e at i f) =
      (refl, holds e (ground (arith, get_length-eq q xs e)) (ground arith) f)
