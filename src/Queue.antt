-- ===== src/Queue.antt =====
-- src/queue.c: a queue with a cursor, over a GQueue. An argument `Queue *q` is an option, `none`
-- being NULL; a function that changes the queue returns it behind its result.
pub mod Glib
pub mod Loops
pub mod Holds
pub mod Ends
pub mod Insert
pub mod Deque
pub mod Walk
pub mod Find
pub mod Remove
mod Tests
use secoli_sced.Base.{
  ℕ, zero, suc, ◌+◌, Bool, true, false, not, ◌&&◌, ◌||◌, List, [], ◌∷◌, Option, none, some,
  if◌then◌else◌, ltb, ℤ, pos, minus_one, ◌+ℤ◌, ◌-ℤ◌, ltb_ℤ, is_neg, eqb_ℤ, to_int, to_uint,
}
use Glib.{GQueue}

-- `malloc` as xmalloc uses it: the flag says whether it finds memory.
abbrev pub xmalloc {ℓ} : {A : Type ℓ} → Bool → A → Option A
xmalloc true a = some a
xmalloc false a = none

pub data QueueDirection : Type 0 where
  qd_head qd_prev qd_current qd_next qd_tail : QueueDirection

module _ {A : Type 0} where
  pub record Queue (G : GQueue A) : Type 0 where
    pub queue : G.Carrier
    pub position : ℤ

module _ {A : Type 0} (G : GQueue A) where
  -- The result of a call that returns a status or a pointer, and the queue after it.
  abbrev pub Status : Type 0
  Status = ℤ × Option (Queue G)

  abbrev pub Got : Type 0
  Got = Option A × Option (Queue G)

  unfoldable pub queue_create : Bool → Option (Queue G)
  queue_create memory = xmalloc memory (record { queue = G.new; position = minus_one })

  unfoldable pub queue_get_length : Option (Queue G) → ℤ
  queue_get_length none = minus_one
  queue_get_length (some q) =
      let n = to_int (G.get_length q.queue) in if is_neg n then minus_one else n

  unfoldable pub queue_rewind : Option (Queue G) → Status
  queue_rewind none = (minus_one, none)
  queue_rewind (some q) =
      (pos 0, some (if ltb_ℤ (pos 0) q.position then record q { position = pos 0 } else q))

  unfoldable pub queue_end : Option (Queue G) → Status
  unfolding queue_get_length
  queue_end none = (minus_one, none)
  queue_end (some q) = (pos 0, some (record q { position = queue_get_length (some q) -ℤ pos 1 }))

  unfoldable pub queue_next : Option (Queue G) → Status
  unfolding queue_get_length
  queue_next none = (minus_one, none)
  queue_next (some q) =
      if ltb_ℤ q.position (queue_get_length (some q) -ℤ pos 1)
      then (pos 0, some (record q { position = q.position +ℤ pos 1 }))
      else (minus_one, some q)

  unfoldable pub queue_next_plus_one : Option (Queue G) → Status
  unfolding queue_get_length
  queue_next_plus_one none = (minus_one, none)
  queue_next_plus_one (some q) = (
    pos 0,
    some (
        if ltb_ℤ q.position (queue_get_length (some q))
        then record q { position = q.position +ℤ pos 1 }
        else q),
  )

  unfoldable pub queue_prev : Option (Queue G) → Status
  queue_prev none = (minus_one, none)
  queue_prev (some q) = (
    pos 0,
    some (if ltb_ℤ (pos 0) q.position then record q { position = q.position -ℤ pos 1 } else q),
  )

  unfoldable pub queue_get : Option (Queue G) → Option A
  queue_get none = none
  queue_get (some q) = if is_neg q.position then none else G.peek_nth q.queue (to_uint q.position)

  unfoldable pub queue_put : Option (Queue G) → Option A → Option Status
  queue_put none d = some (minus_one, none)
  queue_put (some q) d =
      if is_neg q.position
      then some (minus_one, some q)
      else elim (G.put_nth q.queue (to_uint q.position) d) [
        | none ↦ none
        | some stored ↦ some (pos 0, some (record q { queue = stored }))
      ]

  -- `!f(q) ? queue_get(q) : NULL`
  abbrev get_if_moved : Status → Got
  get_if_moved (status, q) = if eqb_ℤ status (pos 0) then (queue_get q, q) else (none, q)

  unfoldable pub queue_get_first : Option (Queue G) → Got
  queue_get_first q = get_if_moved (queue_rewind q)

  unfoldable pub queue_get_next : Option (Queue G) → Got
  queue_get_next q = get_if_moved (queue_next q)

  unfoldable pub queue_get_prev : Option (Queue G) → Got
  queue_get_prev q = get_if_moved (queue_prev q)

  unfoldable pub queue_get_last : Option (Queue G) → Got
  queue_get_last q = get_if_moved (queue_end q)

  -- `g_queue_push_nth(q->__queue, data, q->__position)`
  abbrev push_here : Queue G → Option A → Queue G
  push_here q d = record q { queue = G.push_nth q.queue d q.position }

  abbrev add_moved : Status → Option A → Status
  add_moved (status, none) d = (minus_one, none)
  add_moved (status, some q) d =
      if eqb_ℤ status (pos 0) then (pos 0, some (push_here q d)) else (minus_one, some q)

  unfoldable pub queue_add_node : Option (Queue G) → Option A → Status
  queue_add_node q d = add_moved (queue_next_plus_one q) d

  abbrev insert_moved : Status → Option A → Status
  insert_moved (status, none) d = (minus_one, none)
  insert_moved (status, some q) d =
      if eqb_ℤ status (pos 0) then queue_next (some (push_here q d)) else (minus_one, some q)

  unfoldable pub queue_insert_node : Option (Queue G) → Option A → Status
  queue_insert_node q d = insert_moved (queue_prev q) d

  -- The `switch` at the end of `queue_delete_node`.
  abbrev move : QueueDirection → Option (Queue G) → Option (Queue G)
  move qd_head q = (queue_rewind q).1
  move qd_tail q = (queue_end q).1
  move qd_prev q = (queue_prev q).1
  move qd_next q = q
  move qd_current q = q

  unfoldable pub queue_delete_node : Option (Queue G) → QueueDirection → Got
  queue_delete_node none direction = (none, none)
  queue_delete_node (some q) direction =
      let (d, rest) = G.pop_nth q.queue (to_uint q.position) in
      (d, move direction (some (record q { queue = rest })))

  unfoldable pub queue_pop : Option (Queue G) → Got
  queue_pop q =
      let (status, q') = queue_end q in
      if eqb_ℤ status (pos 0) then queue_delete_node q' qd_prev else (none, q')

  unfoldable pub queue_push : Option (Queue G) → Option A → Status
  queue_push q none = (minus_one, q)
  queue_push q (some d) =
      let (status, q') = queue_end q in
      if eqb_ℤ status (pos 0) then queue_add_node q' (some d) else (minus_one, q')

  unfoldable pub queue_dequeue : Option (Queue G) → Got
  queue_dequeue q =
      let (status, q') = queue_rewind q in
      if eqb_ℤ status (pos 0) then queue_delete_node q' qd_next else (none, q')

  unfoldable pub queue_get_position : Option (Queue G) → ℤ
  queue_get_position none = minus_one
  queue_get_position (some q) = if is_neg q.position then minus_one else q.position

  unfoldable pub queue_set_position : Option (Queue G) → ℤ → Option (Queue G)
  queue_set_position none p = none
  queue_set_position (some q) p = some (record q { position = p })
