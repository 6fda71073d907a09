-- ===== src/Nodes/Counting.antt =====
-- Occurrences and lengths under `remove`, and in lists without repetition.
use inference_sim.Prelude.{
  ℕ, suc, ◌-◌, ◌≤◌, ◌<◌, ◌≡◌, ◌≢◌, refl, List, [], ◌∷◌, ◌++◌, arith, count, length, Distinct,
  NotIn→count_zero, count-append,
}
use inference_sim.Dll.{remove}

pub count-remove_ne : (m n : ℕ) (l : List ℕ) → m ≢ n → count m (remove n l) ≡ count m l
unfolding count remove
count-remove_ne m n [] h = refl
count-remove_ne m n (x ∷ l) h = ground (arith, count-remove_ne m n l h)

pub count-remove_self : (n : ℕ) (l : List ℕ) → count n (remove n l) ≡ count n l - 1
unfolding count remove
count-remove_self n [] = omega arith
count-remove_self n (x ∷ l) = ground (arith, count-remove_self n l)

pub length-remove_one : (n : ℕ) (l : List ℕ) → 0 < count n l → length l ≡ suc (length (remove n l))
unfolding count remove
length-remove_one n [] h = absurd (omega arith)
length-remove_one n (x ∷ l) h = ground (arith, length-remove_one n l)

pub count-le-one : (n : ℕ) (l : List ℕ) → Distinct l → count n l ≤ 1
unfolding count
count-le-one n [] d = omega arith
count-le-one n (x ∷ l) d = ground (arith, count-le-one n l d.1, NotIn→count_zero x l d.0)

pub count-cons_ne : (m n : ℕ) (l : List ℕ) → m ≢ n → count m (n ∷ l) ≡ count m l
unfolding count
count-cons_ne m n l h = ground arith

pub count-cons_self : (n : ℕ) (l : List ℕ) → count n (n ∷ l) ≡ suc (count n l)
unfolding count
count-cons_self n l = ground arith

pub count-snoc : (m n : ℕ) (l : List ℕ) → count m (l ++ n ∷ []) ≡ count m (n ∷ l)
unfolding count
count-snoc m n l = ground (arith, count-append m l (n ∷ []))
