-- ===== src/Queue/Tests.antt =====
-- Queues of numbers over the list queue, and the theorems at them.
use secoli_sced.Base.{
  ℕ, ◌+◌, ◌≡◌, refl, arith, Bool, true, List, [], ◌∷◌, map, Option, some, pos, ◌==◌,
}
use secoli_sced.Queue.Glib.{list_queue}
use secoli_sced.Queue.Deque.{
  Call, put, take_first, take_last, call_all, serve_all, queue_create-serve_all,
}
use secoli_sced.Queue.Holds.{holds}
use secoli_sced.Queue.Walk.{split_first, delete_node-get_next}
use secoli_sced.Queue.Find.{Found, queue_find-Found}
use secoli_sced.Queue.Remove.{Removed, queue_remove-Removed}
use secoli_sced.Queue.{Queue, queue_create, queue_get_next, queue_delete_node, qd_prev}
use secoli_sced.Queue.Loops.{queue_find, queue_remove}

abbrev numbers : List ℕ → ℕ → Option (Queue (list_queue ℕ))
numbers xs n = some (record { queue = map some xs; position = pos n })

abbrev calls : List (Call ℕ)
calls = put 1 ∷ put 2 ∷ take_last ∷ put 3 ∷ take_first ∷ take_first ∷ take_first ∷ []

queue_create-serve_all_example :
    call_all (list_queue ℕ) calls (queue_create (list_queue ℕ) true) ≡ serve_all calls []
queue_create-serve_all_example = queue_create-serve_all (list_queue ℕ) calls (omega arith)

abbrev equal : ℕ → ℕ → Bool
equal a b = a == b

-- Compare a node by its last digit: 13 is found, and 23 comes back.
abbrev same_parity : ℕ → ℕ → Bool
same_parity a b = a + 10 == b

queue_find-Found_example :
    Found
      (list_queue ℕ)
      []
      23
      (5 ∷ 13 ∷ 7 ∷ [])
      (some (5 ∷ [], 13, 7 ∷ []))
      (queue_find (list_queue ℕ) (numbers (5 ∷ 13 ∷ 7 ∷ []) 0) (some same_parity) (some 23))
unfolding split_first
queue_find-Found_example =
    queue_find-Found (list_queue ℕ) same_parity 23 (numbers (5 ∷ 13 ∷ 7 ∷ []) 0) [] 5 (13 ∷ 7 ∷ [])
      (holds refl refl (omega arith) (omega arith))

queue_remove-Removed_example :
    Removed
      (list_queue ℕ)
      []
      qd_prev
      (5 ∷ 13 ∷ 7 ∷ [])
      (some (5 ∷ [], 13, 7 ∷ []))
      (queue_remove (list_queue ℕ) equal (numbers (5 ∷ 13 ∷ 7 ∷ []) 2) (some 13) qd_prev)
unfolding split_first
queue_remove-Removed_example =
    queue_remove-Removed (list_queue ℕ) equal 13 qd_prev (numbers (5 ∷ 13 ∷ 7 ∷ []) 2) 2 5
      (13 ∷ 7 ∷ []) (holds refl refl (omega arith) (omega arith))

delete_node-get_next_example :
    (queue_get_next
      (list_queue ℕ)
      (queue_delete_node (list_queue ℕ) (numbers (5 ∷ 13 ∷ 7 ∷ []) 0) qd_prev).1).0
    ≡ some 7
delete_node-get_next_example =
    delete_node-get_next (list_queue ℕ) (numbers (5 ∷ 13 ∷ 7 ∷ []) 0) [] 5 13 (7 ∷ [])
      (holds refl refl (omega arith) (omega arith))
