-- ===== src/Pool/Shared.antt =====
-- No entry of the pool is lost, and none stands in two places.
use mathlib.Core.List.{Perm}
use mathlib.Core.Path.{subst}
use secoli_sced.Base.{
  ℕ, suc, ◌+◌, ◌-◌, ◌<◌, ◌≡◌, sym, ◌∙◌, inl, inr, List, [], ◌∷◌, ◌++◌, Option, none, some, arith,
  length, length-append, length-insert_idx, erase_idx, insert_idx, ℤ, pos, minus_one, int_limit,
}
use secoli_sced.Pool.Entries.{
  perm_erase, perm_insert, perm_freed, perm_opened, length-erase, snoc_cases,
}
use secoli_sced.Queue.Ends.{queue_push-Holds, queue_pop-Holds, queue_pop_empty}
use secoli_sced.Queue.Glib.{GQueue}
use secoli_sced.Queue.Holds.{Holds, queue_get-Holds, queue_rewind-Holds}
use secoli_sced.Queue.Insert.{queue_next-Holds, queue_insert_node-Holds}
use secoli_sced.Queue.Walk.{queue_delete_node-Holds, moved}
use secoli_sced.Queue.{
  Queue, qd_prev, queue_rewind, queue_get, queue_get_next, queue_next, queue_insert_node,
  queue_push, queue_pop, queue_delete_node,
}

module _ (G : GQueue ℕ) where
  -- The open and the free entries together are `all`, in some order.
  pub data IsShared (all : List ℕ) (o f : Option (Queue G)) : Type 0 where
    shared :
        (xs ys : List ℕ) (n : ℕ) (m : ℤ)
        → Holds G xs (pos n) o
        → Holds G ys m f
        → Perm (xs ++ ys) all
        → length xs + length ys ≡ length all
        → IsShared all o f

  pub queue_next-IsShared :
      {all : List ℕ} {o f : Option (Queue G)} → IsShared all o f → IsShared all (queue_next G o).1 f
  queue_next-IsShared (shared xs ys n m h k p l) =
      let (n', h') = queue_next-Holds G h in shared xs ys n' m h' k p l

  pub queue_get_next-next : (q : Option (Queue G)) → (queue_get_next G q).1 ≡ (queue_next G q).1
  unfolding queue_get_next
  queue_get_next-next q = ground arith

  pub queue_rewind-IsShared :
      {all : List ℕ} {o f : Option (Queue G)}
      → IsShared all o f
      → IsShared all (queue_rewind G o).1 f
  queue_rewind-IsShared (shared xs ys n m h k p l) =
      shared xs ys 0 m (queue_rewind-Holds G h).1 k p l

  -- The entry at the cursor becomes free.
  pub move_to_free :
      (all : List ℕ) (o f : Option (Queue G)) (i : ℕ)
      → IsShared all o f
      → suc (length all) < int_limit
      → queue_get G o ≡ some i
      → IsShared all
          (queue_delete_node G o qd_prev).1
          (queue_push G f (queue_delete_node G o qd_prev).0).1
  unfolding moved
  move_to_free all o f i (shared xs ys n m h k p l) room e =
      let here = sym (queue_get-Holds G h) ∙ e in
      let (v, h') = queue_delete_node-Holds G qd_prev h in
      let count = length-erase xs n i here in
      rw (v ∙ here) (
        shared (erase_idx xs n) (ys ++ i ∷ []) (n - 1) (pos (length ys)) h'
          (queue_push-Holds G i k (omega (arith, count))).1
          (perm_freed xs ys (erase_idx xs n) all i (perm_erase xs n i here) p)
          (omega (arith, count, length-append ys (i ∷ []))))

  -- What `queue_pop` gives of the free entries: none of them, or one that can be put among the open.
  unfoldable pub Popped : List ℕ → Option (Queue G) → Option ℕ × Option (Queue G) → Type 0
  Popped all o (none, f) = IsShared all o f
  Popped all o (some i, f) = IsShared all (queue_insert_node G o (some i)).1 f

  Popped-none :
      {all : List ℕ} {o : Option (Queue G)} (r : Option ℕ × Option (Queue G))
      → r.0 ≡ none
      → IsShared all o r.1
      → Popped all o r
  unfolding Popped
  Popped-none (none, f) e h = h
  Popped-none (some i, f) e h = cc e

  Popped-some :
      {all : List ℕ} (o : Option (Queue G)) (r : Option ℕ × Option (Queue G)) (i : ℕ)
      → r.0 ≡ some i
      → IsShared all (queue_insert_node G o (some i)).1 r.1
      → Popped all o r
  unfolding Popped
  Popped-some o (none, f) i e h = cc e
  Popped-some o (some j, f) i e h = let same : j ≡ i = cc e in rw same h

  pub popped :
      (all : List ℕ) (o f : Option (Queue G))
      → IsShared all o f
      → suc (length all) < int_limit
      → Popped all o (queue_pop G f)
  popped all o f (shared xs ys n m h k p l) room = elim (snoc_cases ys) [
    | inl e ↦
        let (v, k') = queue_pop_empty G (subst (λ zs. Holds G zs m f) e k) in
        Popped-none (queue_pop G f) v (shared xs [] n minus_one h k' (rw e at p) (rw e at l))
    | inr (zs, i, e) ↦
        let (v, k') = queue_pop-Holds G (subst (λ zs. Holds G zs m f) e k) in
        let count = length-append zs (i ∷ []) in
        let l' : length xs + length (zs ++ i ∷ []) ≡ length all = rw e at l in
        let (n', h') = queue_insert_node-Holds G i h (omega (arith, count)) in
        Popped-some o (queue_pop G f) i v (
          shared (insert_idx xs (n - 1) i) zs n' (pos (length zs - 1)) h' k'
            (perm_opened xs zs (insert_idx xs (n - 1) i) all i (perm_insert xs (n - 1) i)
              (rw e at p))
            (omega (arith, count, length-insert_idx xs (n - 1) i)))
  ]
