-- ===== src/Queue/Find.antt =====
-- `queue_find`: what it finds, and what it returns.
use mathlib.Core.List.{append_assoc, append-nil}
use secoli_sced.Base.{
  ℕ, zero, suc, ◌-◌, ◌<◌, ◌≡◌, refl, ◌∙◌, Bool, List, [], ◌∷◌, ◌++◌, Option, none, some, arith,
  length, get_elem?-append_self, pos, Bool-cases, inl, inr,
}
use secoli_sced.Queue.Walk.{split_first, extend, next_node, last_here, past_last, rounds-lt}
use secoli_sced.Queue.Glib.{GQueue}
use secoli_sced.Queue.Holds.{Holds, queue_get-Holds}
use secoli_sced.Queue.Loops.{rounds, find_from, queue_find}
use secoli_sced.Queue.{Queue, Got, queue_get_next, queue_get}

module _ {A : Type 0} (G : GQueue A) where
  -- What a loop leaves that starts at the first node of `ys`, with `xs` behind it, when the first
  -- node of `ys` that passes its test splits it so.
  abbrev pub Found : List A → A → List A → Option (List A × A × List A) → Got G → Type 0
  Found xs d ys none (v, q) = (v ≡ none) × Holds G (xs ++ ys) (pos (length (xs ++ ys) - 1)) q
  Found xs d ys (some (before, a, behind)) (v, q) =
      (v ≡ some d) × Holds G (xs ++ ys) (pos (length (xs ++ before))) q

  Found-step :
      (xs : List A) (y d : A) (ys : List A) (s : Option (List A × A × List A)) (r : Got G)
      → Found (xs ++ y ∷ []) d ys s r
      → Found xs d (y ∷ ys) (extend y s) r
  Found-step xs y d ys none (v, q) h = rw append_assoc at h
  Found-step xs y d ys (some (before, a, behind)) (v, q) h = simp append_assoc at h

  find_from-none :
      (fuel : ℕ) (f : A → Bool) (d : A) (q : Option (Queue G))
      → find_from G fuel f d (none, q) ≡ (none, q)
  unfolding find_from
  find_from-none zero f d q = refl
  find_from-none (suc fuel) f d q = refl

  find_from-Found :
      (fuel : ℕ) (f : A → Bool) (d : A) (r : Got G) (xs : List A) (y : A) (ys : List A)
      → r.0 ≡ some y
      → Holds G (xs ++ y ∷ ys) (pos (length xs)) r.1
      → length ys < fuel
      → Found xs d (y ∷ ys) (split_first f (y ∷ ys)) (find_from G fuel f d r)
  unfolding find_from split_first
  find_from-Found zero f d r xs y ys e h l = absurd (omega arith)
  find_from-Found (suc fuel) f d (v, q) xs y [] e h l = elim (Bool-cases (f y)) [
    | inl hit ↦ rw (e, hit, split_first) (refl, rw append-nil h)
    | inr miss ↦
        rw (e, miss, split_first)
          (rw (past_last G xs y h, find_from-none) (refl, last_here G xs y h))
  ]
  find_from-Found (suc fuel) f d (v, q) xs y (z ∷ zs) e h l = elim (Bool-cases (f y)) [
    | inl hit ↦ rw (e, hit, split_first) (refl, rw append-nil h)
    | inr miss ↦
        let (e', h') = next_node G xs y z zs h in
        rw (e, miss, split_first)
          (Found-step xs y d (z ∷ zs) _ _
            (find_from-Found fuel f d (queue_get_next G q) (xs ++ y ∷ []) z zs e' h' (omega arith)))
  ]

  -- `queue_find`, called with the cursor on the node `y`, walks over the nodes from `y` on to the
  -- first that compares equal and leaves the cursor there, or on the last node where there is
  -- none. What it returns is NULL where there is none, and else its own argument `data`, whatever
  -- the node.
  pub queue_find-Found :
      (compare : A → A → Bool) (d : A) (q : Option (Queue G)) (xs : List A) (y : A) (ys : List A)
      → Holds G (xs ++ y ∷ ys) (pos (length xs)) q
      → Found xs d
          (y ∷ ys)
          (split_first (λ n. compare n d) (y ∷ ys))
          (queue_find G q (some compare) (some d))
  unfolding queue_find
  queue_find-Found compare d q xs y ys h =
      find_from-Found (rounds G q) (λ n. compare n d) d (queue_get G q, q) xs y ys
        (queue_get-Holds G h ∙ get_elem?-append_self xs y ys) h (rounds-lt G xs y ys h)
