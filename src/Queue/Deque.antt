-- ===== src/Queue/Deque.antt =====
-- A client that only calls `queue_push`, `queue_pop` and `queue_dequeue` on a queue that it has
-- created cannot tell it from a list: the cursor does not show.
use secoli_sced.Base.{
  ℕ, suc, ◌+◌, ◌<◌, ◌≤◌, ◌≡◌, refl, ap, ◌⊎◌, inl, inr, true, List, [], ◌∷◌, ◌++◌, Option, none,
  some, arith, length, length-append, if◌then◌else◌, ℤ, pos, negsuc, eqb_ℤ, int_limit,
}
use mathlib.Core.Path.{ap₂}
use secoli_sced.Queue.Glib.{GQueue}
use secoli_sced.Queue.Holds.{Holds, holds}
use secoli_sced.Queue.Ends.{
  queue_push-Holds, queue_dequeue-Holds, queue_dequeue_empty, queue_dequeue_before, queue_pop-Holds,
  queue_pop_empty,
}
use secoli_sced.Queue.{Queue, queue_create, queue_push, queue_pop, queue_dequeue}

pub data Call (A : Type 0) : Type 0 where
  put : A → Call A
  take_first take_last : Call A

module _ {A : Type 0} where
  -- The last item of a list and what stands before it.
  pub unsnoc : List A → Option A × List A
  unsnoc [] = (none, [])
  unsnoc (x ∷ []) = (some x, [])
  unsnoc (x ∷ y ∷ ys) = let (last, front) = unsnoc (y ∷ ys) in (last, x ∷ front)

  unsnoc-append : (xs : List A) (x : A) → unsnoc (xs ++ x ∷ []) ≡ (some x, xs)
  unfolding unsnoc
  unsnoc-append [] x = refl
  unsnoc-append (y ∷ []) x = refl
  unsnoc-append (y ∷ z ∷ zs) x = rw (unsnoc-append (z ∷ zs) x)

  snoc_cases : (xs : List A) → (xs ≡ []) ⊎ ((ys : List A) × (y : A) × (xs ≡ ys ++ y ∷ []))
  snoc_cases [] = inl refl
  snoc_cases (x ∷ xs) = elim (snoc_cases xs) [
    | inl e ↦ inr ([], x, ap (◌∷◌ x) e)
    | inr (ys, y, e) ↦ inr (x ∷ ys, y, ap (◌∷◌ x) e)
  ]

  -- A list serves the calls: what each gives back, and the list after it.
  pub serve : Call A → List A → Option A × List A
  unfolding unsnoc
  serve (put a) xs = (some a, xs ++ a ∷ [])
  serve take_first [] = (none, [])
  serve take_first (x ∷ xs) = (some x, xs)
  serve take_last xs = unsnoc xs

  pub serve_all : List (Call A) → List A → List (Option A)
  serve_all [] xs = []
  serve_all (c ∷ cs) xs = let (reply, ys) = serve c xs in reply ∷ serve_all cs ys

module _ {A : Type 0} (G : GQueue A) where
  -- The same calls made of a queue. `queue_push` gives back its argument if it was accepted.
  pub call : Call A → Option (Queue G) → Option A × Option (Queue G)
  call (put a) q =
      let (status, q') = queue_push G q (some a) in
      (if eqb_ℤ status (pos 0) then some a else none, q')
  call take_first q = queue_dequeue G q
  call take_last q = queue_pop G q

  pub call_all : List (Call A) → Option (Queue G) → List (Option A)
  call_all [] q = []
  call_all (c ∷ cs) q = let (reply, q') = call c q in reply ∷ call_all cs q'

  data Ready (xs : List A) (q : Option (Queue G)) : Type 0 where
    inside : {n : ℕ} → Holds G xs (pos n) q → Ready xs q
    before : {n : ℕ} → xs ≡ [] → Holds G [] (negsuc n) q → Ready xs q

  -- Each call replies as the list does, and leaves the queue holding the list that is left.
  abbrev Serves : Call A → List A → Option A × Option (Queue G) → Type 0
  Serves c xs (reply, q) = (reply ≡ (serve c xs).0) × Ready (serve c xs).1 q

  pop-Serves :
      {p : ℤ} {q : Option (Queue G)} (xs : List A)
      → Holds G xs p q
      → (xs ≡ []) ⊎ ((ys : List A) × (y : A) × (xs ≡ ys ++ y ∷ []))
      → Serves take_last xs (queue_pop G q)
  unfolding serve
  pop-Serves xs h (inl e) = let (v, h') = queue_pop_empty G (rw e at h) in rw e (v, before refl h')
  pop-Serves xs h (inr (ys, y, e)) =
      let (v, h') = queue_pop-Holds G (rw e at h) in rw (e, unsnoc-append ys y) (v, inside h')

  call-Serves :
      (c : Call A) {xs : List A} {q : Option (Queue G)}
      → Ready xs q
      → suc (length xs) < int_limit
      → Serves c xs (call c q)
  unfolding call serve
  call-Serves (put a) (inside h) f = let (s, h') = queue_push-Holds G a h f in (rw s, inside h')
  call-Serves (put a) (before e h) f =
      let (s, h') = queue_push-Holds G a h (omega arith) in rw e (rw s refl, inside h')
  call-Serves take_first {xs = []} (inside h) f =
      let (v, h') = queue_dequeue_empty G h in (v, inside h')
  call-Serves take_first {xs = x ∷ xs} (inside h) f =
      let (v, h') = queue_dequeue-Holds G h in (v, inside h')
  call-Serves take_first (before e h) f =
      let (v, h') = queue_dequeue_before G h in rw e (v, before refl h')
  call-Serves take_last {xs} (inside h) f = pop-Serves xs h (snoc_cases xs)
  call-Serves take_last {xs} (before e h) f = rw e (pop-Serves [] h (inl refl))

  serve-length : (c : Call A) (xs : List A) → length (serve c xs).1 ≤ suc (length xs)
  unfolding serve
  serve-length (put a) xs = omega (arith, length-append xs (a ∷ []))
  serve-length take_first [] = omega arith
  serve-length take_first (x ∷ xs) = omega arith
  serve-length take_last xs = elim (snoc_cases xs) [
    | inl e ↦ rw e (unfold unsnoc in omega arith)
    | inr (ys, y, e) ↦ rw (e, unsnoc-append ys y) (omega (arith, length-append ys (y ∷ [])))
  ]

  call_all-Ready :
      (cs : List (Call A)) {xs : List A} {q : Option (Queue G)}
      → Ready xs q
      → length xs + length cs < int_limit
      → call_all cs q ≡ serve_all cs xs
  unfolding call_all serve_all
  call_all-Ready [] r f = refl
  call_all-Ready (c ∷ cs) {xs} {q} r f =
      let (v, r') = call-Serves c r (omega arith) in
      ap₂ ◌∷◌ v (call_all-Ready cs r' (omega (arith, serve-length c xs)))

  -- From a new queue, any sequence of fewer than 2^31 calls of `queue_push`, `queue_dequeue` and
  -- `queue_pop` gives back what the same calls on a list give: first in first out at one end,
  -- last in first out at the other, NULL exactly when the list is empty, every push accepted.
  pub queue_create-serve_all :
      (cs : List (Call A))
      → length cs < int_limit
      → call_all cs (queue_create G true) ≡ serve_all cs []
  unfolding queue_create
  queue_create-serve_all cs f =
      call_all-Ready cs (before refl (holds G.contents-new refl (omega arith) (omega arith)))
        (omega arith)
