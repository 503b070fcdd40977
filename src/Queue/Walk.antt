-- ===== src/Queue/Walk.antt =====
-- Removal at the cursor, and one round of a loop over the nodes.
use mathlib.Core.List.{append_assoc}
use secoli_sced.Base.{
  ℕ, suc, ◌-◌, ◌<◌, ◌≡◌, refl, sym, ◌∙◌, Bool, List, [], ◌∷◌, ◌++◌, Option, none, some, arith,
  length, length-append, get_elem?, get_elem?-append_self, erase_idx, erase_idx-append_self,
  length-erase_idx-le, if◌then◌else◌, ℤ, pos, ◌-ℤ◌, to_uint,
}
use secoli_sced.Queue.Glib.{GQueue}
use secoli_sced.Queue.Holds.{
  Holds, holds, not_null, pop_nth-Holds, queue_rewind-Holds, queue_prev-Holds,
  queue_get_next-inside, queue_get_next_last, queue_end-Holds, get_length-eq,
}
use secoli_sced.Queue.Loops.{rounds}
use secoli_sced.Queue.{
  Queue, QueueDirection, qd_head, qd_prev, qd_current, qd_next, qd_tail, queue_delete_node,
  queue_get_next,
}

-- Where `queue_delete_node` leaves the cursor, when node `n` goes and `m` nodes are left.
unfoldable pub moved : QueueDirection → ℕ → ℕ → ℤ
moved qd_head m n = pos 0
moved qd_tail m n = pos m -ℤ pos 1
moved qd_prev m n = pos (n - 1)
moved qd_next m n = pos n
moved qd_current m n = pos n

abbrev pub extend {ℓ} :
    {A : Type ℓ} → A → Option (List A × A × List A) → Option (List A × A × List A)
extend x none = none
extend x (some (before, a, behind)) = some (x ∷ before, a, behind)

-- The first item that passes the test, with what stands before and behind it.
unfoldable pub split_first {ℓ} : {A : Type ℓ} → (A → Bool) → List A → Option (List A × A × List A)
split_first f [] = none
split_first f (x ∷ xs) = if f x then some ([], x, xs) else extend x (split_first f xs)

module _ {A : Type 0} (G : GQueue A) where
  pop_here :
      {q : Queue G} {xs : List A} {n : ℕ}
      → Holds G xs (pos n) (some q)
      → ((G.pop_nth q.queue (to_uint q.position)).0 ≡ get_elem? xs n)
        × Holds G
            (erase_idx xs n)
            (pos n)
            (some (record q { queue = (G.pop_nth q.queue (to_uint q.position)).1 }))
  pop_here {xs} {n} (holds {q} e at i f) =
      let (v, rest) = pop_nth-Holds G q.queue xs n e in
      let here : to_uint q.position ≡ n = ground arith in
      rw here (v, holds rest at i (omega (arith, length-erase_idx-le xs n)))

  -- `queue_delete_node` takes the node at the cursor out and moves the cursor as it is told.
  pub queue_delete_node-Holds :
      {q : Option (Queue G)} {xs : List A} {n : ℕ} (direction : QueueDirection)
      → Holds G xs (pos n) q
      → ((queue_delete_node G q direction).0 ≡ get_elem? xs n)
        × Holds G
            (erase_idx xs n)
            (moved direction (length (erase_idx xs n)) n)
            (queue_delete_node G q direction).1
  unfolding queue_delete_node moved
  queue_delete_node-Holds {q = none} direction h = absurd (not_null G h refl)
  queue_delete_node-Holds {q = some q} qd_head h =
      let (v, h') = pop_here h in (v, (queue_rewind-Holds G h').1)
  queue_delete_node-Holds {q = some q} qd_tail h =
      let (v, h') = pop_here h in (v, (queue_end-Holds G h').1)
  queue_delete_node-Holds {q = some q} qd_prev h =
      let (v, h') = pop_here h in (v, (queue_prev-Holds G h').1)
  queue_delete_node-Holds {q = some q} qd_next h = pop_here h
  queue_delete_node-Holds {q = some q} qd_current h = pop_here h

  -- The call that a loop makes to go on: `y` is the node at the cursor.
  pub next_node :
      {q : Option (Queue G)} (xs : List A) (y z : A) (zs : List A)
      → Holds G (xs ++ y ∷ z ∷ zs) (pos (length xs)) q
      → ((queue_get_next G q).0 ≡ some z)
        × Holds G ((xs ++ y ∷ []) ++ z ∷ zs) (pos (length (xs ++ y ∷ []))) (queue_get_next G q).1
  next_node xs y z zs h =
      let regroup : xs ++ y ∷ z ∷ zs ≡ (xs ++ y ∷ []) ++ z ∷ zs =
        sym (append_assoc xs (y ∷ []) (z ∷ zs)) in
      let len : suc (length xs) ≡ length (xs ++ y ∷ []) =
        omega (arith, length-append xs (y ∷ [])) in
      let (v, h') = queue_get_next-inside G h (omega (arith, length-append xs (y ∷ z ∷ zs))) in
      (v ∙ rw (regroup, len) (get_elem?-append_self (xs ++ y ∷ []) z zs), rw (regroup, len) at h')

  -- The cursor is on the last of the nodes `xs` and `y`.
  pub last_here :
      {q : Option (Queue G)} (xs : List A) (y : A)
      → Holds G (xs ++ y ∷ []) (pos (length xs)) q
      → Holds G (xs ++ y ∷ []) (pos (length (xs ++ y ∷ []) - 1)) q
  last_here xs y h =
      let len : length (xs ++ y ∷ []) - 1 ≡ length xs = omega (arith, length-append xs (y ∷ [])) in
      rw len h

  pub past_last :
      {q : Option (Queue G)} (xs : List A) (y : A)
      → Holds G (xs ++ y ∷ []) (pos (length xs)) q
      → queue_get_next G q ≡ (none, q)
  past_last xs y h = queue_get_next_last G h (omega (arith, length-append xs (y ∷ [])))

  -- The fuel of a loop is enough for the nodes from the cursor on.
  pub rounds-lt :
      {q : Option (Queue G)} {p : ℤ} (xs : List A) (y : A) (ys : List A)
      → Holds G (xs ++ y ∷ ys) p q
      → length ys < rounds G q
  rounds-lt xs y ys (holds {q} e at i f) =
      omega (arith, get_length-eq G q (xs ++ y ∷ ys) e, length-append xs (y ∷ ys))

  -- A loop that takes out the node `y` at the cursor with QD_PREV and then calls `queue_get_next`
  -- goes on with the node behind `y`, unless `y` is the first node: then it passes over that node.
  pub delete_node-get_next :
      (q : Option (Queue G)) (xs : List A) (y z : A) (zs : List A)
      → Holds G (xs ++ y ∷ z ∷ zs) (pos (length xs)) q
      → (queue_get_next G (queue_delete_node G q qd_prev).1).0
        ≡ (elim xs [ [] ↦ get_elem? zs 0 | _ ↦ some z ])
  unfolding moved
  delete_node-get_next q [] y z [] h =
      let (v, h') = queue_delete_node-Holds qd_prev h in rw (queue_get_next_last G h' (omega arith))
  delete_node-get_next q [] y z (w ∷ ws) h =
      let (v, h') = queue_delete_node-Holds qd_prev h in
      (queue_get_next-inside G h' (omega arith)).0
  delete_node-get_next q (x ∷ xs) y z zs h =
      let (v, h') = queue_delete_node-Holds qd_prev h in
      let rest : erase_idx (xs ++ y ∷ z ∷ zs) (length xs) ≡ xs ++ z ∷ zs =
        erase_idx-append_self xs y (z ∷ zs) in
      let at : suc (length xs) - 1 ≡ length xs = omega arith in
      (queue_get_next-inside G (rw (rest, at) at h') (omega (arith, length-append xs (z ∷ zs)))).0
      ∙ get_elem?-append_self xs z zs
