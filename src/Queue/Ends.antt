-- ===== src/Queue/Ends.antt =====
-- Both ends of a queue of src/queue.c: `queue_push`, `queue_pop` and `queue_dequeue`.
use secoli_sced.Base.{
  true, ℕ, suc, ◌-◌, ◌^◌, ◌<◌, ◌≤◌, ◌≡◌, refl, sym, ap, ◌∙◌, List, [], ◌∷◌, ◌++◌, map, Option, none,
  some, arith, length, length-map, length-append, insert_idx_end, erase_idx, ℤ, pos, negsuc,
  minus_one, int_limit, get_elem?_past, erase_idx_past, get_elem?-append_self,
  erase_idx-append_self, to_uint,
}
use mathlib.Core.List.{map-append, append-nil}
use secoli_sced.Queue.Holds.{Holds, holds, Waits, at_node, before, get_length-eq, pop_nth-Holds}
use secoli_sced.Queue.Glib.{GQueue}
use secoli_sced.Queue.{
  Queue, queue_create, queue_rewind, queue_end, queue_next_plus_one, queue_prev, queue_add_node,
  queue_push, queue_pop, queue_dequeue, queue_delete_node,
}

module _ {A : Type 0} (G : GQueue A) where
  push_at_end :
      (c : G.Carrier) (xs : List A) (d : A)
      → G.contents c ≡ map some xs
      → G.contents (G.push_nth c (some d) (pos (length xs))) ≡ map some (xs ++ d ∷ [])
  push_at_end c xs d e =
      rw (G.push_nth-insert_idx c (some d) (length xs), e)
        (rw (← length-map (λ (x : A). some x) xs)
          (insert_idx_end (map some xs) (some d) ∙ sym (map-append (λ x. some x) xs (d ∷ []))))

  queue_push-eq :
      (q : Queue G) (xs : List A) (d : A)
      → G.contents q.queue ≡ map some xs
      → length xs < int_limit
      → queue_push G (some q) (some d) ≡ (
        pos 0,
        some (record {
          queue = G.push_nth q.queue (some d) (pos (length xs));
          position = pos (length xs);
        }),
      )
  unfolding queue_push queue_end queue_add_node queue_next_plus_one
  queue_push-eq q xs d e f = ground (arith, get_length-eq G q xs e)

  -- `queue_push` adds at the end and moves the cursor to the new node.
  pub queue_push-Holds :
      {q : Option (Queue G)} {xs : List A} {p : ℤ} (d : A)
      → Holds G xs p q
      → suc (length xs) < int_limit
      → ((queue_push G q (some d)).0 ≡ pos 0)
        × Holds G (xs ++ d ∷ []) (pos (length xs)) (queue_push G q (some d)).1
  queue_push-Holds {xs} d (holds {q} e at i f) g =
      rw (queue_push-eq q xs d e f)
        (refl, holds (push_at_end q.queue xs d e) refl f (omega (arith, length-append xs (d ∷ []))))

  queue_dequeue-eq :
      (q : Queue G) (n : ℕ)
      → q.position ≡ pos n
      → queue_dequeue G (some q) ≡ (
        (G.pop_nth q.queue 0).0,
        some (record { queue = (G.pop_nth q.queue 0).1; position = pos 0 }),
      )
  unfolding queue_dequeue queue_rewind queue_delete_node
  queue_dequeue-eq q n e = ground arith

  queue_dequeue_before-eq :
      (q : Queue G) (n : ℕ)
      → q.position ≡ negsuc n
      → queue_dequeue G (some q) ≡ (
        (G.pop_nth q.queue (to_uint (negsuc n))).0,
        some (record { queue = (G.pop_nth q.queue (to_uint (negsuc n))).1; position = negsuc n }),
      )
  unfolding queue_dequeue queue_rewind queue_delete_node
  queue_dequeue_before-eq q n e = ground arith

  queue_pop-eq :
      (q : Queue G) (xs : List A) (n : ℕ)
      → G.contents q.queue ≡ map some xs
      → length xs < int_limit
      → length xs ≡ suc n
      → queue_pop G (some q) ≡ (
        (G.pop_nth q.queue n).0,
        some (record { queue = (G.pop_nth q.queue n).1; position = pos (n - 1) }),
      )
  unfolding queue_pop queue_end queue_prev queue_delete_node
  queue_pop-eq q xs n e f l = ground (arith, get_length-eq G q xs e)

  queue_pop_empty-eq :
      (q : Queue G)
      → G.contents q.queue ≡ []
      → queue_pop G (some q) ≡ (
        (G.pop_nth q.queue (2 ^ 32 - 1)).0,
        some (record { queue = (G.pop_nth q.queue (2 ^ 32 - 1)).1; position = minus_one }),
      )
  unfolding queue_pop queue_end queue_prev queue_delete_node
  queue_pop_empty-eq q e = ground (arith, get_length-eq G q [] e)

  -- `queue_dequeue` takes the first node, from any cursor that is not before it.
  pub queue_dequeue-Holds :
      {q : Option (Queue G)} {x : A} {xs : List A} {n : ℕ}
      → Holds G (x ∷ xs) (pos n) q
      → ((queue_dequeue G q).0 ≡ some x) × Holds G xs (pos 0) (queue_dequeue G q).1
  queue_dequeue-Holds {x} {xs} {n} (holds {q} e at i f) =
      let (v, rest) = pop_nth-Holds G q.queue (x ∷ xs) 0 e in
      rw (queue_dequeue-eq q n at) (v, holds rest refl (omega arith) (omega arith))

  pub queue_dequeue_empty :
      {q : Option (Queue G)} {n : ℕ}
      → Holds G [] (pos n) q
      → ((queue_dequeue G q).0 ≡ none) × Holds G [] (pos 0) (queue_dequeue G q).1
  queue_dequeue_empty {n} (holds {q} e at i f) =
      let (v, rest) = pop_nth-Holds G q.queue [] 0 e in
      rw (queue_dequeue-eq q n at) (v, holds rest refl (omega arith) (omega arith))

  -- Before the first node `g_queue_pop_nth` is asked for node 2^32 - 1 - n, which there is not.
  pub queue_dequeue_before :
      {q : Option (Queue G)} {xs : List A} {n : ℕ}
      → Holds G xs (negsuc n) q
      → ((queue_dequeue G q).0 ≡ none) × Holds G xs (negsuc n) (queue_dequeue G q).1
  queue_dequeue_before {xs} {n} (holds {q} e at i f) =
      let (v, rest) = pop_nth-Holds G q.queue xs (to_uint (negsuc n)) e in
      let past : length xs ≤ to_uint (negsuc n) = omega arith in
      rw (queue_dequeue_before-eq q n at) (
        v ∙ get_elem?_past xs _ past,
        holds (rest ∙ ap (map some) (erase_idx_past xs _ past)) refl i f,
      )

  -- `queue_pop` takes the last node.
  pub queue_pop-Holds :
      {q : Option (Queue G)} {xs : List A} {x : A} {p : ℤ}
      → Holds G (xs ++ x ∷ []) p q
      → ((queue_pop G q).0 ≡ some x) × Holds G xs (pos (length xs - 1)) (queue_pop G q).1
  queue_pop-Holds {xs} {x} {p} (holds {q} e at i f) =
      let (v, rest) = pop_nth-Holds G q.queue (xs ++ x ∷ []) (length xs) e in
      let kept : erase_idx (xs ++ x ∷ []) (length xs) ≡ xs =
        erase_idx-append_self xs x [] ∙ append-nil xs in
      let l : length (xs ++ x ∷ []) ≡ suc (length xs) = omega (arith, length-append xs (x ∷ [])) in
      rw (queue_pop-eq q (xs ++ x ∷ []) (length xs) e f l) (
        v ∙ get_elem?-append_self xs x [],
        holds (rest ∙ ap (map some) kept) refl (omega arith) (omega arith),
      )

  pub queue_pop_empty :
      {q : Option (Queue G)} {p : ℤ}
      → Holds G [] p q
      → ((queue_pop G q).0 ≡ none) × Holds G [] minus_one (queue_pop G q).1
  queue_pop_empty {p} (holds {q} e at i f) =
      let (v, rest) = pop_nth-Holds G q.queue [] (2 ^ 32 - 1) e in
      rw (queue_pop_empty-eq q e) (v, holds rest refl (omega arith) f)

  pub queue_create-Waits : Waits G [] (queue_create G true)
  unfolding queue_create
  queue_create-Waits = before 0 refl (holds (G.contents-new) refl (omega arith) (omega arith))

  pub queue_push-Waits :
      {q : Option (Queue G)} {xs : List A} (d : A)
      → Waits G xs q
      → suc (length xs) < int_limit
      → Waits G (xs ++ d ∷ []) (queue_push G q (some d)).1
  queue_push-Waits {q} {xs} d (at_node n h) l = at_node (length xs) (queue_push-Holds d h l).1
  queue_push-Waits {q} {xs} d (before n e h) l = at_node (length xs) (queue_push-Holds d h l).1

  pub queue_dequeue-Waits :
      {q : Option (Queue G)} {x : A} {xs : List A}
      → Waits G (x ∷ xs) q
      → ((queue_dequeue G q).0 ≡ some x) × Waits G xs (queue_dequeue G q).1
  queue_dequeue-Waits (at_node n h) = let (v, h') = queue_dequeue-Holds h in (v, at_node 0 h')
  queue_dequeue-Waits (before n e h) = cc e

  pub queue_dequeue-none :
      {q : Option (Queue G)}
      → Waits G [] q
      → ((queue_dequeue G q).0 ≡ none) × Waits G [] (queue_dequeue G q).1
  queue_dequeue-none (at_node n h) = let (v, h') = queue_dequeue_empty h in (v, at_node 0 h')
  queue_dequeue-none (before n e h) = let (v, h') = queue_dequeue_before h in (v, before n e h')
