-- ===== src/Tests/QueueTests.antt =====
-- The wait queue of sim/queue.go, with two and three requests.
use inference_sim.Prelude.{ℕ, List, [], ◌∷◌, ◌++◌, ◌≡◌, ◌⊎◌, NotIn, length, true, false, ok, pos}
use inference_sim.Queue.{WaitQueue, peek, peek_at, remove}
use inference_sim.Queue.Order
use inference_sim.Queue.Order.{enqueue_all, dequeue_many, prepend_all}

abbrev two : WaitQueue
two = record { queue = 4 ∷ 9 ∷ [] }

-- The tail of a batch.
abbrev preempted : List ℕ
preempted = 7 ∷ 8 ∷ []

dequeue_many-enqueue_all_example :
    dequeue_many (length (two.queue ++ 1 ∷ 3 ∷ [])) (enqueue_all two (1 ∷ 3 ∷ []))
    ≡ (record { queue = [] }, two.queue ++ 1 ∷ 3 ∷ [])
dequeue_many-enqueue_all_example = Order.dequeue_many-enqueue_all two (1 ∷ 3 ∷ [])

peek-dequeue_many_example : peek (dequeue_many 1 two).0 ≡ peek_at two (pos 1)
peek-dequeue_many_example = Order.peek-dequeue_many 1 two

dequeue_many-prepend_all_example :
    (wq1 : WaitQueue) × (prepend_all two preempted ≡ ok wq1)
    × (dequeue_many (length preempted) wq1 ≡ (two, preempted))
dequeue_many-prepend_all_example = Order.dequeue_many-prepend_all two preempted

remove-cases_example :
    (NotIn 9 two.queue × (remove two 9 ≡ (two, false)))
    ⊎ ((xs : List ℕ) × (ys : List ℕ) × (two.queue ≡ xs ++ 9 ∷ ys)
        × NotIn 9 xs
        × (remove two 9 ≡ (record { queue = xs ++ ys }, true)))
remove-cases_example = Order.remove-cases two 9
