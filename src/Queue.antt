-- ===== src/Queue.antt =====
-- sim/queue.go: `WaitQueue`, the requests waiting at an instance. A request is its address, since
-- the code compares pointers, and the nil pointer is `none`. String is left out: it only prints.
use inference_sim.Prelude.{
  ℕ, List, [], ◌∷◌, ◌++◌, Option, some, none, Bool, true, false, ℤ, pos, negsuc, Result, ok, panic,
  bad_argument, violation, length, get_elem?, head?, ◌==◌, if◌then◌else◌, not, require, ◌>>=◌, ◌>>◌,
}
pub mod Order

pub record WaitQueue : Type 0 where
  pub queue : List ℕ

-- Enqueue
unfoldable pub enqueue : WaitQueue → ℕ → WaitQueue
enqueue wq r = record { queue = wq.queue ++ r ∷ [] }

-- Len
abbrev pub len : WaitQueue → ℕ
len wq = length wq.queue

-- Peek
unfoldable pub peek : WaitQueue → Option ℕ
peek wq = head? wq.queue

-- PeekAt, by the sign of the index.
unfoldable pub peek_at : WaitQueue → ℤ → Option ℕ
peek_at wq (negsuc i) = none
peek_at wq (pos i) = get_elem? wq.queue i

-- PrependFront
unfoldable pub prepend_front : WaitQueue → Option ℕ → Result WaitQueue
prepend_front wq none = panic bad_argument
prepend_front wq (some r) = ok (record { queue = r ∷ wq.queue })

-- Reorder: `fn` gives what the callback leaves in the queue, or is nil.
unfoldable pub reorder : WaitQueue → Option (List ℕ → List ℕ) → Result WaitQueue
reorder wq none = panic bad_argument
reorder wq (some fn) = do
  let n = length wq.queue
  let queue = fn wq.queue
  require (length queue == n) violation
  ok (record { queue = queue })

-- The loop of Remove: whether the request was found, and the queue it leaves.
unfoldable pub remove_loop : ℕ → List ℕ → Bool × List ℕ
remove_loop req [] = (false, [])
remove_loop req (r ∷ rs) =
    let rest = remove_loop req rs in if r == req then (true, rs) else (rest.0, r ∷ rest.1)

-- Remove
unfoldable pub remove : WaitQueue → ℕ → WaitQueue × Bool
unfolding remove_loop
remove wq req = let found = remove_loop req wq.queue in (record { queue = found.1 }, found.0)

-- DequeueBatch: the rest of the list, and its front or nil.
abbrev pub rest_of : List ℕ → List ℕ
rest_of [] = []
rest_of (r ∷ rs) = rs

unfoldable pub dequeue_batch : WaitQueue → WaitQueue × Option ℕ
dequeue_batch wq = (record { queue = rest_of wq.queue }, head? wq.queue)
