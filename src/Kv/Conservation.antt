-- ===== src/Kv/Conservation.antt =====
-- INV-4: free blocks and blocks in use add up to the total, as verifyBlockConservation checks it.
use inference_sim.Prelude.{
  ℕ, zero, suc, ◌+◌, ◌≤◌, ◌≡◌, refl, List, [], ◌∷◌, Option, some, none, arith, count, length, ok,
  true, ltb, if◌then◌else◌, pos, eqb_ℤ-refl,
}
use inference_sim.Dll
use inference_sim.Dll.{Dll, Represents, Table}
use inference_sim.Kv.State.{Block, Cache}
use inference_sim.Kv.FreeList.{walk, in_use_count, verify_block_conservation}
use inference_sim.Kv.Holds.{vacancy}
use inference_sim.Kv.Inv.{Inv, refs}

-- How many entries of the list are below n.
count_below : ℕ → List ℕ → ℕ
count_below n [] = 0
count_below n (x ∷ xs) = if ltb x n then suc (count_below n xs) else count_below n xs

count_below-suc : (n : ℕ) (xs : List ℕ) → count_below (suc n) xs ≡ count n xs + count_below n xs
unfolding count_below count
count_below-suc n [] = refl
count_below-suc n (x ∷ xs) = ground (arith, count_below-suc n xs)

count_below-zero : (xs : List ℕ) → count_below 0 xs ≡ 0
unfolding count_below
count_below-zero [] = refl
count_below-zero (x ∷ xs) = ground (arith, count_below-zero xs)

count_below-length :
    (n : ℕ) (xs : List ℕ) → ((i : ℕ) → n ≤ i → count i xs ≡ 0) → count_below n xs ≡ length xs
unfolding count_below count
count_below-length n [] h = refl
count_below-length n (x ∷ xs) h =
    ground (arith, h x, count_below-length n xs (λ i le. let e = h i le in ground arith))

-- Below every index the vacancies and the blocks in use make up the index.
in_use_count-vacancy :
    (blocks : ℕ → Block) (f : ℕ → ℕ) (total n : ℕ) (xs : List ℕ)
    → n ≤ total
    → ((i : ℕ) → (blocks i).in_use ≡ ltb 0 (f i))
    → ((i : ℕ) → count i xs ≡ vacancy total i (f i))
    → count_below n xs + in_use_count blocks n ≡ n
unfolding in_use_count
in_use_count-vacancy blocks f total zero xs le busy vacant = omega (arith, count_below-zero xs)
in_use_count-vacancy blocks f total (suc n) xs le busy vacant = ground (
  arith,
  count_below-suc n xs,
  busy n,
  vacant n,
  in_use_count-vacancy blocks f total n xs (omega arith) busy vacant,
)

walk-ok :
    (fuel : ℕ) (t : Table) (p : Option ℕ) (xs : List ℕ)
    → Dll.Chain t p xs none
    → length xs ≤ fuel
    → walk fuel t (Dll.first_or none xs) ≡ ok (length xs)
unfolding walk
walk-ok zero t p [] c le = refl
walk-ok zero t p (x ∷ xs) c le = absurd (omega arith)
walk-ok (suc fuel) t p [] c le = refl
walk-ok (suc fuel) t p (x ∷ xs) c le =
    rw c.1 (rw (walk-ok fuel t (some x) xs c.2 (omega arith)) refl)

-- On a cache that satisfies the invariant the check passes: with as much fuel as blocks its walk
-- ends, the free list and the blocks in use add up to the total, and the counter is the length of
-- the free list.
pub verify_block_conservation-Inv :
    (s : Cache) → Inv s → verify_block_conservation s.total_blocks s ≡ ok true
unfolding verify_block_conservation
verify_block_conservation-Inv s v =
    let h = v.holds in
    let all = count_below-length s.total_blocks h.free_ids (λ i le. ground (arith, h.vacant i)) in
    let sum =
      in_use_count-vacancy s.blocks (refs s.request_map) s.total_blocks s.total_blocks h.free_ids
        (omega arith) h.busy h.vacant in
    rw h.listed.at_head (
      rw (walk-ok s.total_blocks s.free.links none h.free_ids h.listed.chain (omega arith))
        (rw h.counted (ground (arith, eqb_ℤ-refl (pos (length h.free_ids))))))
