-- ===== src/Pool/Starting.antt =====
-- The pool of sock2_init.
use mathlib.Core.List.{Perm, perm_middle, perm_append_singleton, append-nil}
use mathlib.Core.List.Perm
use mathlib.Core.Path.{subst}
use secoli_sced.Base.{
  ℕ, zero, suc, is_neg, eqb_ℤ, false, ◌+◌, ◌-◌, ◌<◌, ◌≡◌, refl, ap, inl, inr, true, List, [], ◌∷◌,
  ◌++◌, Option, none, some, arith, length, length-append, length-insert_idx, insert_idx, ℤ, pos,
  minus_one, int_limit,
}
use secoli_sced.Pool.{Pool, update_at, zeroed, insert_entries, sock2_init}
use secoli_sced.Pool.Entries.{perm_insert, snoc_cases}
use secoli_sced.Pool.Shared.{IsShared, shared}
use secoli_sced.Queue.Ends.{queue_pop-Holds}
use secoli_sced.Queue.Glib.{GQueue}
use secoli_sced.Queue.Holds.{Holds, holds}
use secoli_sced.Queue.Insert.{
  queue_insert_node-Holds, queue_insert_node_first, queue_add_node_first,
}
use secoli_sced.Queue.{Queue, queue_create, queue_insert_node, queue_pop, queue_add_node}

-- The entries `i`, `i + 1` and so on, `n` of them.
abbrev pub entries_from : ℕ → ℕ → List ℕ
entries_from i zero = []
entries_from i (suc n) = i ∷ entries_from (suc i) n

pub length-entries_from : (i n : ℕ) → length (entries_from i n) ≡ n
length-entries_from i zero = refl
length-entries_from i (suc n) = ap suc (length-entries_from (suc i) n)

module _ (G : GQueue ℕ) where
  -- The queue holds the entries from `i` on beside those of `xs`.
  data Filled (i n : ℕ) (xs : List ℕ) (q : Option (Queue G)) : Type 0 where
    filled :
        (ys : List ℕ) (m : ℕ)
        → Holds G ys (pos m) q
        → Perm ys (entries_from i n ++ xs)
        → length ys ≡ n + length xs
        → Filled i n xs q

  insert_entries-Filled :
      (i n : ℕ) (xs : List ℕ) (m : ℕ) (q : Option (Queue G))
      → Holds G xs (pos m) q
      → n + length xs < int_limit
      → Filled i n xs (insert_entries G i n q)
  unfolding insert_entries
  insert_entries-Filled i zero xs m q h room = filled xs m h (Perm.refl xs) (omega arith)
  insert_entries-Filled i (suc n) xs m q h room =
      let count = length-insert_idx xs (m - 1) i in
      let (m', h') = queue_insert_node-Holds G i h (omega arith) in
      elim (insert_entries-Filled (suc i) n (insert_idx xs (m - 1) i) m'
        (queue_insert_node G q (some i)).1 h' (omega (arith, count))) [
          | filled ys k h'' p l ↦
              filled ys k h''
                (Perm.trans p (
                  Perm.trans (Perm.append_left (entries_from (suc i) n) (perm_insert xs (m - 1) i))
                    (perm_middle (entries_from (suc i) n) xs)))
                (omega (arith, count, l))
        ]

  new : Queue G
  new = record { queue = G.new; position = minus_one }

  all_entries :
      (n : ℕ) → suc n < int_limit → Filled 0 (suc n) [] (insert_entries G 0 (suc n) (some new))
  unfolding insert_entries new
  all_entries n room =
      let h = queue_insert_node_first G 0 (holds G.contents-new refl (omega arith) (omega arith)) in
      elim (insert_entries-Filled 1 n (0 ∷ []) 0 (queue_insert_node G (some new) (some 0)).1 h
        (omega arith)) [
          | filled ys k h' p l ↦
              filled ys k h'
                (Perm.trans p (
                  Perm.trans (perm_append_singleton 0 (entries_from 1 n))
                    (rw append-nil (Perm.refl (entries_from 0 (suc n))))))
                (omega (arith, l))
        ]

  -- The pool that sock2_init leaves where the entry `i` listens.
  abbrev started : ℕ → ℕ → ℤ → Pool G → Pool G
  started n i created p = record p {
    listening_fd = created;
    active_fd_set = λ fd. eqb_ℤ fd created;
    free_sockets = (queue_pop G (insert_entries G 0 n (some new))).1;
    open_sockets = (queue_add_node G (some new) (some i)).1;
    entries = update_at zeroed i (record { socket = created; client = none });
  }

  sock2_init-eq :
      (n i : ℕ) (created : ℤ) (p : Pool G)
      → is_neg created ≡ false
      → (queue_pop G (insert_entries G 0 n (some new))).0 ≡ some i
      → sock2_init G n created (true, true, true, true) p ≡ some (pos 0, started n i created p)
  unfolding sock2_init queue_create new
  sock2_init-eq n i created p e e' = rw (e, e', sock2_init) refl

  pub sock2_init-IsShared :
      (n : ℕ) (created : ℤ) (p : Pool G)
      → is_neg created ≡ false
      → suc (suc n) < int_limit
      → (q : Pool G) × (sock2_init G (suc n) created (true, true, true, true) p ≡ some (pos 0, q))
        × IsShared G (entries_from 0 (suc n)) q.open_sockets q.free_sockets
  unfolding new
  sock2_init-IsShared n created p valid room = elim (all_entries n (omega arith)) [
    | filled ys k h e l ↦ elim (snoc_cases ys) [
      | inl empty ↦ absurd (omega (arith, l, ap length empty))
      | inr (zs, i, split) ↦
          let (v, k') =
            queue_pop-Holds G
              (subst (λ xs. Holds G xs (pos k) (insert_entries G 0 (suc n) (some new))) split h) in
          let opened =
            queue_add_node_first G i (holds G.contents-new refl (omega arith) (omega arith)) in
          (
            started (suc n) i created p,
            sock2_init-eq (suc n) i created p valid v,
            shared (i ∷ []) zs 0 (pos (length zs - 1)) opened k'
                (Perm.trans (Perm.symm (perm_append_singleton i zs)) (rw (split, append-nil) at e))
                (omega (
                  arith,
                  l,
                  ap length split,
                  length-append zs (i ∷ []),
                  length-entries_from 0 (suc n),
                )),
          )
    ]
  ]
