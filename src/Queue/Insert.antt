-- ===== src/Queue/Insert.antt =====
-- `queue_insert_node` and `queue_add_node`: where a new node stands.
use secoli_sced.Base.{
  ℕ, suc, ◌-◌, ◌<◌, ◌≡◌, refl, ap, ◌∙◌, inl, inr, List, [], ◌∷◌, Option, none, some, arith, length,
  length-insert_idx, insert_idx, insert_idx-map, ℤ, pos, minus_one, int_limit, Bool-cases, ltb,
}
use secoli_sced.Queue.Glib.{GQueue}
use secoli_sced.Queue.Holds.{
  Holds, holds, not_null, queue_next-inside, queue_next_last, queue_prev-Holds,
}
use secoli_sced.Queue.{
  Queue, insert_moved, queue_get_length, queue_next, queue_next_plus_one, queue_prev,
  queue_insert_node, queue_add_node,
}

module _ {A : Type 0} (G : GQueue A) where
  -- Whether the cursor moves or not.
  pub queue_next-Holds :
      {q : Option (Queue G)} {xs : List A} {n : ℕ}
      → Holds G xs (pos n) q
      → (m : ℕ) × Holds G xs (pos m) (queue_next G q).1
  queue_next-Holds {q} {xs} {n} h = elim (Bool-cases (ltb (suc n) (length xs))) [
    | inl l ↦ (suc n, (queue_next-inside G h (ground arith)).1)
    | inr l ↦ (n, rw (queue_next_last G h (ground arith)) h)
  ]

  push_here-Holds :
      {q : Queue G} {xs : List A} {n : ℕ} (d : A)
      → Holds G xs (pos n) (some q)
      → suc (length xs) < int_limit
      → Holds G
          (insert_idx xs n d)
          (pos n)
          (some (record q { queue = G.push_nth q.queue (some d) q.position }))
  push_here-Holds {q} {xs} {n} d (holds e at i f) room =
      holds
        (rw (at, G.push_nth-insert_idx q.queue (some d) n, e)
          (insert_idx-map (λ (x : A). some x) xs n d))
        at i (omega (arith, length-insert_idx xs n d))

  insert_moved-Holds :
      {xs : List A} {n : ℕ} (r : ℤ × Option (Queue G)) (d : A)
      → r.0 ≡ pos 0
      → Holds G xs (pos n) r.1
      → suc (length xs) < int_limit
      → (m : ℕ) × Holds G (insert_idx xs n d) (pos m) (insert_moved G r (some d)).1
  insert_moved-Holds (status, none) d s h room = absurd (not_null G h refl)
  insert_moved-Holds (status, some q) d s h room =
      rw s (queue_next-Holds (push_here-Holds d h room))

  -- The new node stands in front of the node before the cursor.
  pub queue_insert_node-Holds :
      {q : Option (Queue G)} {xs : List A} {n : ℕ} (d : A)
      → Holds G xs (pos n) q
      → suc (length xs) < int_limit
      → (m : ℕ) × Holds G (insert_idx xs (n - 1) d) (pos m) (queue_insert_node G q (some d)).1
  unfolding queue_insert_node
  queue_insert_node-Holds {q} d h room =
      let (s, h') = queue_prev-Holds G h in insert_moved-Holds (queue_prev G q) d s h' room

  -- The first node of a new queue.
  tail-contents :
      (c : G.Carrier) (d : A)
      → G.contents c ≡ []
      → G.contents (G.push_nth c (some d) minus_one) ≡ some d ∷ []
  tail-contents c d e = G.push_nth-tail c (some d) 0 ∙ rw e refl

  insert_first-eq :
      (q : Queue G) (d : A)
      → q.position ≡ minus_one
      → G.get_length (G.push_nth q.queue (some d) minus_one) ≡ 1
      → queue_insert_node G (some q) (some d)
        ≡ (pos 0, some (record { queue = G.push_nth q.queue (some d) minus_one; position = pos 0 }))
  unfolding queue_insert_node queue_prev queue_next queue_get_length
  insert_first-eq q d at l = ground arith

  pub queue_insert_node_first :
      {q : Option (Queue G)} (d : A)
      → Holds G [] minus_one q
      → Holds G (d ∷ []) (pos 0) (queue_insert_node G q (some d)).1
  queue_insert_node_first d (holds {q} e at i f) =
      let c = tail-contents q.queue d e in
      rw (insert_first-eq q d at (G.get_length-length _ ∙ ap length c))
        (holds c refl (omega arith) (omega arith))

  add_first-eq :
      (q : Queue G) (d : A)
      → q.position ≡ minus_one
      → G.get_length q.queue ≡ 0
      → queue_add_node G (some q) (some d)
        ≡ (pos 0, some (record { queue = G.push_nth q.queue (some d) (pos 0); position = pos 0 }))
  unfolding queue_add_node queue_next_plus_one queue_get_length
  add_first-eq q d at l = ground arith

  pub queue_add_node_first :
      {q : Option (Queue G)} (d : A)
      → Holds G [] minus_one q
      → Holds G (d ∷ []) (pos 0) (queue_add_node G q (some d)).1
  queue_add_node_first d (holds {q} e at i f) =
      rw (add_first-eq q d at (G.get_length-length q.queue ∙ ap length e)) (
        holds (G.push_nth-insert_idx q.queue (some d) 0 ∙ rw e refl) refl (omega arith)
          (omega arith))
