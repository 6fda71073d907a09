-- ===== src/Queue/Order.antt =====
-- The order in which sim/queue.go hands requests out.
use inference_sim.Prelude.{
  ℕ, zero, suc, List, [], ◌∷◌, ◌++◌, some, none, Bool, true, false, ◌≡◌, refl, sym, ◌∙◌, ap, pos,
  ok, Result, ◌>>=◌, arith, get_elem?, head?, ◌⊎◌, inl, inr, NotIn, length, ◌==◌, ◌≢◌, Bool-cases,
}
use mathlib.Core.List.{append-nil}
use inference_sim.Queue.{
  WaitQueue, enqueue, dequeue_batch, peek, peek_at, prepend_front, remove, remove_loop,
}

-- Requests that arrive one after the other.
unfoldable pub enqueue_all : WaitQueue → List ℕ → WaitQueue
enqueue_all wq [] = wq
enqueue_all wq (r ∷ rs) = enqueue_all (enqueue wq r) rs

-- What as many calls of DequeueBatch hand out, nil left out, and the queue they leave.
unfoldable pub dequeue_many : ℕ → WaitQueue → WaitQueue × List ℕ
dequeue_many zero wq = (wq, [])
dequeue_many (suc n) wq =
    let (wq1, r) = dequeue_batch wq in
    let (wq2, rs) = dequeue_many n wq1 in elim r [ none ↦ (wq2, rs) | some x ↦ (wq2, x ∷ rs) ]

append-assoc_one : (xs : List ℕ) (r : ℕ) (rs : List ℕ) → (xs ++ r ∷ []) ++ rs ≡ xs ++ r ∷ rs
append-assoc_one [] r rs = refl
append-assoc_one (x ∷ xs) r rs = ap (◌∷◌ x) (append-assoc_one xs r rs)

queue-enqueue_all : (wq : WaitQueue) (rs : List ℕ) → (enqueue_all wq rs).queue ≡ wq.queue ++ rs
unfolding enqueue_all enqueue
queue-enqueue_all wq [] = sym (append-nil wq.queue)
queue-enqueue_all wq (r ∷ rs) = queue-enqueue_all (enqueue wq r) rs ∙ append-assoc_one wq.queue r rs

dequeue_many-all :
    (xs : List ℕ) → dequeue_many (length xs) (record { queue = xs }) ≡ (record { queue = [] }, xs)
unfolding dequeue_many dequeue_batch
dequeue_many-all [] = refl
dequeue_many-all (x ∷ xs) = rw (dequeue_many-all xs) refl

-- First in, first out: after any arrivals, dequeueing as often as there are requests hands out those
-- that waited before, then the arrivals, each once and in order, and leaves the queue empty.
pub dequeue_many-enqueue_all :
    (wq : WaitQueue) (rs : List ℕ)
    → dequeue_many (length (wq.queue ++ rs)) (enqueue_all wq rs)
      ≡ (record { queue = [] }, wq.queue ++ rs)
dequeue_many-enqueue_all wq rs =
    ap (λ xs. dequeue_many (length (wq.queue ++ rs)) (record { queue = xs }))
      (queue-enqueue_all wq rs)
    ∙ dequeue_many-all (wq.queue ++ rs)

nth-dequeue_many :
    (i : ℕ) (xs : List ℕ) → head? (dequeue_many i (record { queue = xs })).0.queue ≡ get_elem? xs i
unfolding dequeue_many dequeue_batch
nth-dequeue_many zero [] = refl
nth-dequeue_many zero (x ∷ xs) = refl
nth-dequeue_many (suc i) [] = nth-dequeue_many i []
nth-dequeue_many (suc i) (x ∷ xs) = nth-dequeue_many i xs

-- PeekAt(i) shows, without changing the queue, the request that Peek shows after i dequeues.
pub peek-dequeue_many : (i : ℕ) (wq : WaitQueue) → peek (dequeue_many i wq).0 ≡ peek_at wq (pos i)
unfolding peek peek_at
peek-dequeue_many i wq = nth-dequeue_many i wq.queue

-- The requests put back at the front one by one, the last of them first.
unfoldable pub prepend_all : WaitQueue → List ℕ → Result WaitQueue
prepend_all wq [] = ok wq
prepend_all wq (r ∷ rs) = do wq1 ← prepend_all wq rs; prepend_front wq1 (some r)

-- Requests that PrependFront puts back from the last to the first, as preemption does with the tail
-- of a batch, are handed out first, in the order they had, and the queue is then as it was.
pub dequeue_many-prepend_all :
    (wq : WaitQueue) (rs : List ℕ)
    → (wq1 : WaitQueue) × (prepend_all wq rs ≡ ok wq1) × (dequeue_many (length rs) wq1 ≡ (wq, rs))
unfolding prepend_all prepend_front dequeue_many dequeue_batch
dequeue_many-prepend_all wq [] = (wq, refl, refl)
dequeue_many-prepend_all wq (r ∷ rs) =
    let (wq1, put, out) = dequeue_many-prepend_all wq rs in
    (record { queue = r ∷ wq1.queue }, rw put refl, rw out refl)

same_address : (a b : ℕ) → (a == b) ≡ true → b ≡ a
same_address a b e = ground arith

other_address : (a b : ℕ) → (a == b) ≡ false → b ≢ a
other_address a b e = ground arith

-- The two outcomes of the loop of Remove.
abbrev Removed : ℕ → List ℕ → Bool × List ℕ → Type 0
Removed req q out =
    (NotIn req q × (out ≡ (false, q)))
    ⊎ ((xs : List ℕ) × (ys : List ℕ) × (q ≡ xs ++ req ∷ ys)
        × NotIn req xs
        × (out ≡ (true, xs ++ ys)))

remove_loop-cases : (req : ℕ) (q : List ℕ) → Removed req q (remove_loop req q)
unfolding remove_loop
remove_loop-cases req [] = inl (tt, refl)
remove_loop-cases req (x ∷ q) = elim (Bool-cases (x == req)) [
  | inl e ↦ inr ([], q, ap (λ y. y ∷ q) (sym (same_address x req e)), tt, rw e refl)
  | inr e ↦ elim (remove_loop-cases req q) [
    | inl (n, out) ↦ inl ((other_address x req e, n), rw (e, out) refl)
    | inr (xs, ys, at, n, out) ↦
        inr (x ∷ xs, ys, ap (◌∷◌ x) at, (other_address x req e, n), rw (e, out) refl)
  ]
]

-- Remove either finds the request, takes its first occurrence out and leaves the others in order, or
-- reports that the queue does not hold it and changes nothing.
pub remove-cases :
    (wq : WaitQueue) (req : ℕ)
    → (NotIn req wq.queue × (remove wq req ≡ (wq, false)))
      ⊎ ((xs : List ℕ) × (ys : List ℕ) × (wq.queue ≡ xs ++ req ∷ ys)
          × NotIn req xs
          × (remove wq req ≡ (record { queue = xs ++ ys }, true)))
unfolding remove
remove-cases wq req = elim (remove_loop-cases req wq.queue) [
  | inl (n, out) ↦ inl (n, rw out refl)
  | inr (xs, ys, at, n, out) ↦ inr (xs, ys, at, n, rw out refl)
]
