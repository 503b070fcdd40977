-- ===== src/Queue/Remove.antt =====
-- `queue_remove`: the first node that is the given pointer goes.
use mathlib.Core.List.{append_assoc, append-nil}
use secoli_sced.Base.{
  ℕ, zero, suc, ◌-◌, ◌<◌, ◌≡◌, refl, ◌∙◌, Bool, List, [], ◌∷◌, ◌++◌, Option, none, some, arith,
  length, get_elem?-append_self, erase_idx, erase_idx-append_self, pos, Bool-cases, inl, inr,
}
use secoli_sced.Queue.Walk.{
  split_first, extend, moved, next_node, last_here, past_last, queue_delete_node-Holds, rounds-lt,
}
use secoli_sced.Queue.Glib.{GQueue}
use secoli_sced.Queue.Holds.{Holds, queue_get-Holds, queue_rewind-Holds}
use secoli_sced.Queue.Loops.{rounds, skip_rest, remove_from, queue_remove}
use secoli_sced.Queue.{Queue, QueueDirection, Got, queue_delete_node, queue_get_next, queue_rewind}

module _ {A : Type 0} (G : GQueue A) where
  -- What the loop leaves that starts at the first node of `ys`, with `xs` behind it, when the first
  -- node of `ys` that is the pointer splits it so.
  abbrev pub Removed :
      List A → QueueDirection → List A → Option (List A × A × List A) → Got G → Type 0
  Removed xs direction ys none (v, q) =
      (v ≡ none) × Holds G (xs ++ ys) (pos (length (xs ++ ys) - 1)) q
  Removed xs direction ys (some (before, a, behind)) (v, q) =
      let left = (xs ++ before) ++ behind in
      (v ≡ some a) × Holds G left (moved direction (length left) (length (xs ++ before))) q

  Removed-step :
      (direction : QueueDirection) (xs : List A) (y : A) (ys : List A)
      (s : Option (List A × A × List A)) (r : Got G)
      → Removed (xs ++ y ∷ []) direction ys s r
      → Removed xs direction (y ∷ ys) (extend y s) r
  Removed-step direction xs y ys none (v, q) h = rw append_assoc at h
  Removed-step direction xs y ys (some (before, a, behind)) (v, q) h =
      rw (append_assoc xs (y ∷ []) before) at h

  skip_rest-none : (fuel : ℕ) (q : Option (Queue G)) → skip_rest G fuel (none, q) ≡ q
  unfolding skip_rest
  skip_rest-none zero q = refl
  skip_rest-none (suc fuel) q = refl

  -- At the end the loop behind the loop makes no move.
  remove_end :
      (fuel : ℕ) (f : A → Bool) (direction : QueueDirection) {q : Option (Queue G)} (xs : List A)
      (y : A)
      → Holds G (xs ++ y ∷ []) (pos (length xs)) q
      → remove_from G fuel f direction (none, q) ≡ (none, q)
  unfolding remove_from
  remove_end zero f direction xs y h = refl
  remove_end (suc fuel) f direction {q} xs y h = rw (past_last G xs y h, skip_rest-none) refl

  remove_here :
      (direction : QueueDirection) {q : Option (Queue G)} (xs : List A) (y : A) (ys : List A)
      → Holds G (xs ++ y ∷ ys) (pos (length xs)) q
      → Removed xs direction (y ∷ ys) (some ([], y, ys)) (queue_delete_node G q direction)
  remove_here direction {q} xs y ys h =
      let (v, h') = queue_delete_node-Holds G direction h in
      let rest : erase_idx (xs ++ y ∷ ys) (length xs) ≡ (xs ++ []) ++ ys =
        erase_idx-append_self xs y ys ∙ rw append-nil in
      (v ∙ get_elem?-append_self xs y ys, rw (← rest, append-nil xs) h')

  remove_from-Removed :
      (fuel : ℕ) (f : A → Bool) (direction : QueueDirection) (r : Got G) (xs : List A) (y : A)
      (ys : List A)
      → r.0 ≡ some y
      → Holds G (xs ++ y ∷ ys) (pos (length xs)) r.1
      → length ys < fuel
      → Removed xs direction (y ∷ ys) (split_first f (y ∷ ys)) (remove_from G fuel f direction r)
  unfolding remove_from split_first
  remove_from-Removed zero f direction r xs y ys e h l = absurd (omega arith)
  remove_from-Removed (suc fuel) f direction (v, q) xs y [] e h l = elim (Bool-cases (f y)) [
    | inl hit ↦ rw (e, hit, split_first) (remove_here direction xs y [] h)
    | inr miss ↦
        rw (e, miss, split_first)
          (rw (past_last G xs y h, remove_end fuel f direction xs y h) (refl, last_here G xs y h))
  ]
  remove_from-Removed (suc fuel) f direction (v, q) xs y (z ∷ zs) e h l = elim (Bool-cases (f y)) [
    | inl hit ↦ rw (e, hit, split_first) (remove_here direction xs y (z ∷ zs) h)
    | inr miss ↦
        let (e', h') = next_node G xs y z zs h in
        rw (e, miss, split_first)
          (Removed-step direction xs y (z ∷ zs) _ _ (
            remove_from-Removed fuel f direction (queue_get_next G q) (xs ++ y ∷ []) z zs e' h'
              (omega arith)))
  ]

  -- `queue_remove`, on a queue with nodes, takes out the first node that is the pointer `d`,
  -- returns it and moves the cursor as it is told; where no node is, it returns NULL, takes out
  -- nothing and leaves the cursor on the last node.
  pub queue_remove-Removed :
      (same : A → A → Bool) (d : A) (direction : QueueDirection) (q : Option (Queue G)) (n : ℕ)
      (y : A) (ys : List A)
      → Holds G (y ∷ ys) (pos n) q
      → Removed [] direction
          (y ∷ ys)
          (split_first (λ n. same n d) (y ∷ ys))
          (queue_remove G same q (some d) direction)
  unfolding queue_remove
  queue_remove-Removed same d direction q n y ys h =
      let (s, h') = queue_rewind-Holds G h in
      rw s (
        remove_from-Removed (rounds G (queue_rewind G q).1) (λ n. same n d) direction _ [] y ys
          (queue_get-Holds G h') h' (rounds-lt G [] y ys h'))
