-- ===== src/Kv/Fresh.antt =====
-- The inner loop of AllocateKVBlocks: what a fresh block changes, and that enough free blocks make
-- the loop end without a panic.
use inference_sim.Prelude.{
  ℕ, zero, suc, ◌+◌, ◌-◌, ◌*◌, ◌≤◌, ◌<◌, ◌≡◌, refl, ◌∙◌, ap, min, String, List, [], arith, ite,
  ℕ_discrete, string_discrete, length, ok, pos, true, length-take, length-drop, UniqueKeys-insert,
  drop, some,
}
use inference_sim.Hash.{Sha}
use inference_sim.Request.{Request}
use inference_sim.Kv.State.{Cache, append_id, set_block}
use inference_sim.Kv.FreeList.{pop_free_block, remove_from_free_list}
use inference_sim.Kv.Lookup.{slice}
use inference_sim.Kv.Allocate.{register, evict_hash, fill_fresh, fresh_loop}
use inference_sim.Kv.Holds.{Holds, Holds-ext, bump, popped, fresh-Holds}
use inference_sim.Kv.Inv.{Inv, refs, refs-append_id, filled-append_id}

-- A fresh block in place: everything but the hashes.
pub record Fresh (s t : Cache) (k : String) (b : ℕ) (tok : List ℕ) : Type 0 where
  pub total : t.total_blocks ≡ s.total_blocks
  pub size : t.block_size ≡ s.block_size
  pub free : t.free ≡ s.free
  pub cnt : t.free_block_cnt ≡ s.free_block_cnt
  pub map : t.request_map ≡ append_id s.request_map k b
  pub ref_counts :
      (i : ℕ) → (t.blocks i).ref_count ≡ ite (ℕ_discrete i b) (pos 1) (s.blocks i).ref_count
  pub in_uses : (i : ℕ) → (t.blocks i).in_use ≡ ite (ℕ_discrete i b) true (s.blocks i).in_use
  pub tokens : (i : ℕ) → (t.blocks i).tokens ≡ ite (ℕ_discrete i b) tok (s.blocks i).tokens

-- The blocks that requests hold are neither empty nor too full.
pub record Sized (s : Cache) : Type 0 where
  pub positive : 0 < s.block_size
  pub held :
      (i : ℕ)
      → 0 < refs s.request_map i
      → (0 < length (s.blocks i).tokens) × (length (s.blocks i).tokens ≤ s.block_size)

-- The state after popFreeBlock has taken the block b.
abbrev pub without_head : Cache → ℕ → Cache
without_head s b = set_block (remove_from_free_list s b) b (record (s.blocks b) { tokens = [] })

fresh-Inv :
    (s t : Cache) (k : String) (b : ℕ) (tok : List ℕ)
    → refs s.request_map b ≡ 0
    → b < s.total_blocks
    → Fresh (without_head s b) t k b tok
    → Inv s
    → Inv t
unfolding remove_from_free_list append_id
fresh-Inv s t k b tok z lt f v =
    let m = s.request_map in
    let h : Holds t (bump b (refs m)) =
      fresh-Holds s t b (refs m) z lt f.free f.cnt f.total (λ i. ground (arith, f.ref_counts i))
        (λ i. ground (arith, f.in_uses i)) v.holds in
    record {
      holds =
          Holds-ext t (bump b (refs m)) (refs t.request_map)
            (λ i. ground (arith, ap (λ n. refs n i) f.map, refs-append_id m k b i)) h;
      unique = rw f.map (UniqueKeys-insert string_discrete k _ m v.unique);
      filled = rw f.map (filled-append_id m k b v.filled);
    }

fresh-Sized :
    (s t : Cache) (k : String) (b : ℕ) (tok : List ℕ)
    → 0 < length tok
    → length tok ≤ s.block_size
    → Fresh (without_head s b) t k b tok
    → Sized s
    → Sized t
unfolding remove_from_free_list
fresh-Sized s t k b tok nonempty fits f z = record {
  positive = ground (arith, f.size, z.positive);
  held = λ i h. ground (
    arith,
    f.size,
    f.tokens i,
    z.held i,
    ap (λ n. refs n i) f.map,
    refs-append_id s.request_map k b i,
  );
}

module _ (sha : Sha) where
  pub fill_fresh-Fresh :
      (s : Cache) (req : Request) (b : ℕ) (tok : List ℕ) (prev : String)
      → Fresh s (fill_fresh sha s req b tok prev).0 req.id b tok
  unfolding fill_fresh register evict_hash
  fill_fresh-Fresh s req b tok prev = record {
    total = ground arith;
    size = ground arith;
    free = ground arith;
    cnt = ground arith;
    map = ground arith;
    ref_counts = λ i. ground arith;
    in_uses = λ i. ground arith;
    tokens = λ i. ground arith;
  }

  length-slice_pos :
      (idx size : ℕ) (xs : List ℕ)
      → 0 < size
      → idx < length xs
      → let tok = slice idx (min (idx + size) (length xs)) xs in
        (0 < length tok) × (length tok ≤ size)
  length-slice_pos idx size xs h lt =
      let n = min (idx + size) (length xs) - idx in
      (
        omega (arith, length-take n (drop idx xs), length-drop idx xs),
        omega (arith, length-take n (drop idx xs), length-drop idx xs),
      )

  fresh_loop_step :
      (rounds : ℕ) (s s1 : Cache) (b : ℕ) (req : Request) (xs : List ℕ) (idx : ℕ) (prev : String)
      → pop_free_block s ≡ some (s1, b)
      → let end = min (idx + s1.block_size) (length xs) in
        let filled = fill_fresh sha s1 req b (slice idx end xs) prev in
        fresh_loop sha (suc rounds) s req xs idx prev
        ≡ fresh_loop sha rounds filled.0 req xs end filled.1
  unfolding fresh_loop
  fresh_loop_step rounds s s1 b req xs idx prev e = rw (e, fresh_loop)

  -- With as many free blocks as rounds, and rounds for the tokens that remain, the loop ends with
  -- every token placed.
  pub fresh_loop-Inv :
      (rounds c : ℕ) (s : Cache) (req : Request) (new_tokens : List ℕ) (idx : ℕ) (prev : String)
      → s.free_block_cnt ≡ pos c
      → rounds ≤ c
      → idx ≤ length new_tokens
      → length new_tokens ≤ idx + rounds * s.block_size
      → idx + rounds * s.block_size < length new_tokens + s.block_size
      → Inv s
      → Sized s
      → (t : Cache) × (fresh_loop sha rounds s req new_tokens idx prev ≡ ok (t, length new_tokens))
        × Inv t
        × Sized t
        × (t.total_blocks ≡ s.total_blocks)
        × (t.block_size ≡ s.block_size)
  unfolding fresh_loop remove_from_free_list
  fresh_loop-Inv zero c s req xs idx prev cnt le at most least v z =
      let done : idx ≡ length xs = omega arith in (s, ap (λ n. ok (s, n)) done, v, z, refl, refl)
  fresh_loop-Inv (suc rounds) c s req xs idx prev cnt le at most least v z =
      let some_free : 0 < length v.holds.free_ids = ground (arith, v.holds.counted) in
      let (b, unheld, below, e) = popped s (refs s.request_map) v.holds some_free in
      let s1 = without_head s b in
      let end = min (idx + s.block_size) (length xs) in
      let tok = slice idx end xs in
      let t = fill_fresh sha s1 req b tok prev in
      let f = fill_fresh-Fresh s1 req b tok prev in
      let lt : idx < length xs = omega arith in
      let (some_tok, fits) = length-slice_pos idx s.block_size xs z.positive lt in
      let v1 = fresh-Inv s t.0 req.id b tok unheld below f v in
      let z1 = fresh-Sized s t.0 req.id b tok some_tok fits f z in
      let (u, done, v2, z2, total, size) =
        fresh_loop-Inv rounds (c - 1) t.0 req xs end t.1 (ground (arith, f.cnt)) (omega arith)
          (omega arith) (rw f.size (omega arith)) (rw f.size (omega arith)) v1 z1 in
      (
        u,
        fresh_loop_step rounds s s1 b req xs idx prev e ∙ done,
        v2,
        z2,
        total ∙ f.total,
        size ∙ f.size,
      )
