-- ===== src/Queue/Loops.antt =====
-- The loops of src/queue.c over the nodes: `queue_find` and `queue_remove`.
use secoli_sced.Base.{ℕ, zero, suc, Bool, Option, none, some, if◌then◌else◌, is_neg}
use secoli_sced.Queue.Glib.{GQueue}
use secoli_sced.Queue.{
  Queue, QueueDirection, Got, queue_rewind, queue_get, queue_get_next, queue_delete_node,
}

module _ {A : Type 0} (G : GQueue A) where
  -- Each round but the last moves the cursor towards the last node, where `queue_get_next` fails:
  -- as many rounds as nodes, and one to see the end.
  abbrev pub rounds : Option (Queue G) → ℕ
  rounds none = 0
  rounds (some q) = suc (G.get_length q.queue)

  -- The `for` loop of `queue_find`; the test is `compare(node_data, data) == 0`.
  unfoldable pub find_from : ℕ → (A → Bool) → A → Got G → Got G
  find_from zero matches d (n, q) = (none, q)
  find_from (suc fuel) matches d (none, q) = (none, q)
  find_from (suc fuel) matches d (some n, q) =
      let rest = find_from fuel matches d (queue_get_next G q) in
      if matches n then (some d, q) else rest

  -- `compare == NULL` and `data == NULL` are `none`.
  unfoldable pub queue_find : Option (Queue G) → Option (A → A → Bool) → Option A → Got G
  unfolding find_from
  queue_find q none d = (none, q)
  queue_find q (some compare) none = (none, q)
  queue_find q (some compare) (some d) =
      find_from (rounds q) (λ n. compare n d) d (queue_get G q, q)

  -- `while (queue_get_next(q));`, behind the `for` loop of `queue_remove`
  unfoldable pub skip_rest : ℕ → Got G → Option (Queue G)
  skip_rest zero (n, q) = q
  skip_rest (suc fuel) (none, q) = q
  skip_rest (suc fuel) (some n, q) = skip_rest fuel (queue_get_next G q)

  unfoldable pub remove_from : ℕ → (A → Bool) → QueueDirection → Got G → Got G
  unfolding skip_rest
  remove_from zero is_data direction (n, q) = (none, q)
  remove_from (suc fuel) is_data direction (none, q) =
      (none, skip_rest (rounds q) (queue_get_next G q))
  remove_from (suc fuel) is_data direction (some n, q) =
      let rest = remove_from fuel is_data direction (queue_get_next G q) in
      if is_data n then queue_delete_node G q direction else rest

  -- `same` is the equality of pointers.
  unfoldable pub queue_remove :
      (A → A → Bool) → Option (Queue G) → Option A → QueueDirection → Got G
  unfolding remove_from
  queue_remove same q none direction = (none, q)
  queue_remove same q (some d) direction =
      let (status, q') = queue_rewind G q in
      if is_neg status
      then (none, q')
      else remove_from (rounds q') (λ n. same n d) direction (queue_get G q', q')
