-- ===== src/Hash/Prefix.antt =====
-- Block hashes chain: what the hashes of a longer sequence share with those of its beginning.
use inference_sim.Prelude.{
  ℕ, zero, suc, ◌+◌, ◌*◌, ◌/◌, ◌≤◌, ◌<◌, ◌≡◌, refl, sym, ap, String, List, [], ◌∷◌, ◌++◌, length,
  take, drop, ok, arith, ◌==◌, subst, false,
}
use inference_sim.Hash.Defs.{Sha, write_tokens, block_hashes_loop, compute_block_hashes}

length-append : (xs ys : List ℕ) → length (xs ++ ys) ≡ length xs + length ys
length-append [] ys = omega arith
length-append (x ∷ xs) ys = omega (arith, length-append xs ys)

take-append : (n : ℕ) (xs ys : List ℕ) → n ≤ length xs → take n (xs ++ ys) ≡ take n xs
take-append zero xs ys h = refl
take-append (suc n) [] ys h = absurd (omega arith)
take-append (suc n) (x ∷ xs) ys h = ap (◌∷◌ x) (take-append n xs ys (omega arith))

-- A window inside the beginning does not see what follows.
window-append :
    (m n : ℕ) (xs ys : List ℕ) → m + n ≤ length xs → take n (drop m (xs ++ ys)) ≡ take n (drop m xs)
window-append zero n xs ys h = take-append n xs ys (omega arith)
window-append (suc m) zero xs ys h = refl
window-append (suc m) (suc n) [] ys h = absurd (omega arith)
window-append (suc m) (suc n) (x ∷ xs) ys h = window-append m (suc n) xs ys (omega arith)

whole_blocks : (n size : ℕ) → 0 < size → (n / size) * size ≤ n
whole_blocks n size h = grind arith

more_blocks : (n k size : ℕ) → 0 < size → n / size ≤ (n + k) / size
more_blocks n k size h = grind arith

next_block : (i r size n : ℕ) → (i + suc r) * size ≤ n → i * size + size ≤ n
next_block i r size n h = grind arith

later_blocks : (i r size n : ℕ) → (i + suc r) * size ≤ n → (i + 1 + r) * size ≤ n
later_blocks i r size n h = grind arith

zero_plus : (n : ℕ) → n ≡ 0 + n
zero_plus n = omega arith

positive : (n : ℕ) → 0 < n → (n == 0) ≡ false
positive n h = ground arith

module _ (sha : Sha) where
  block_hashes_loop-append :
      (r total i size : ℕ) (prev : String) (xs ys : List ℕ)
      → r ≤ total
      → (i + r) * size ≤ length xs
      → (rest : List String) × (block_hashes_loop sha total i size prev (xs ++ ys)
          ≡ block_hashes_loop sha r i size prev xs ++ rest)
  unfolding block_hashes_loop
  block_hashes_loop-append zero total i size prev xs ys le h =
      (block_hashes_loop sha total i size prev (xs ++ ys), refl)
  block_hashes_loop-append (suc r) zero i size prev xs ys le h = absurd (omega arith)
  block_hashes_loop-append (suc r) (suc total) i size prev xs ys le h =
      let window = window-append (i * size) size xs ys (next_block i r size (length xs) h) in
      let hash = sha.digest (write_tokens sha prev (take size (drop (i * size) xs))) in
      let (rest, e) =
        block_hashes_loop-append r total (i + 1) size hash xs ys (omega arith)
          (later_blocks i r size (length xs) h) in
      (rest, rw window (ap (◌∷◌ hash) e))

  -- Requests that share a prefix share its block hashes: for a positive block size, the hashes of a
  -- sequence are the first ones of every sequence that extends it.
  pub compute_block_hashes-append :
      (size : ℕ) (xs ys : List ℕ)
      → 0 < size
      → (hashes : List String) × (rest : List String) × (compute_block_hashes sha size xs
          ≡ ok hashes)
        × (compute_block_hashes sha size (xs ++ ys) ≡ ok (hashes ++ rest))
  unfolding compute_block_hashes
  compute_block_hashes-append size xs ys h =
      let blocks = length xs / size in
      let more =
        subst (λ n. blocks ≤ n / size) (sym (length-append xs ys))
          (more_blocks (length xs) (length ys) size h) in
      let fits : (0 + blocks) * size ≤ length xs =
        subst (λ n. n * size ≤ length xs) (zero_plus blocks) (whole_blocks (length xs) size h) in
      let (rest, e) =
        block_hashes_loop-append blocks (length (xs ++ ys) / size) 0 size "" xs ys more fits in
      (
        block_hashes_loop sha blocks 0 size "" xs,
        rest,
        rw (positive size h) refl,
        rw (positive size h) (ap ok e),
      )
