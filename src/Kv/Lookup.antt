-- ===== src/Kv/Lookup.antt =====
-- The queries for a cached prefix: GetCachedBlocks and the function that SnapshotCachedBlocksFn
-- returns. Neither changes the state.
use inference_sim.Prelude.{
  ℕ, zero, suc, ◌+◌, ◌-◌, ◌*◌, ◌/◌, String, List, [], ◌∷◌, Option, some, none, length, take, drop,
  Result, ok, panic, divide_by_zero, ◌==◌, if◌then◌else◌,
}
use inference_sim.Hash.{Sha, hash_block}
use inference_sim.Kv.State.{Cache}

-- xs[start:end]
abbrev pub slice : ℕ → ℕ → List ℕ → List ℕ
slice start end xs = take (end - start) (drop start xs)

-- The closure that SnapshotCachedBlocksFn returns, as the variables that it captures.
pub record CachedBlocksFn : Type 0 where
  pub snapshot : String → Option ℕ
  pub block_size : ℕ

-- SnapshotCachedBlocksFn: the copy of the map is the map at the time of the call.
unfoldable pub snapshot_cached_blocks_fn : Cache → CachedBlocksFn
snapshot_cached_blocks_fn s = record { snapshot = s.hash_to_block; block_size = s.block_size }

module _ (sha : Sha) where
  -- The loop of GetCachedBlocks: block i of the rounds left.
  unfoldable pub cached_loop : (String → Option ℕ) → ℕ → ℕ → ℕ → String → List ℕ → List ℕ
  cached_loop known block_size zero i prev tokens = []
  cached_loop known block_size (suc rounds) i prev tokens =
      let start = i * block_size in
      let h = hash_block sha prev (slice start (start + block_size) tokens) in
      elim (known h) [
        | none ↦ []
        | some id ↦ id ∷ cached_loop known block_size rounds (i + 1) h tokens
      ]

  -- GetCachedBlocks
  unfoldable pub get_cached_blocks : Cache → List ℕ → Result (List ℕ)
  unfolding cached_loop
  get_cached_blocks s tokens =
      if s.block_size == 0
      then panic divide_by_zero
      else ok (cached_loop s.hash_to_block s.block_size (length tokens / s.block_size) 0 "" tokens)

  -- The loop of the snapshot's closure.
  unfoldable pub snapshot_loop : (String → Option ℕ) → ℕ → ℕ → ℕ → String → ℕ → List ℕ → ℕ
  snapshot_loop snapshot block_size zero i prev count tokens = count
  snapshot_loop snapshot block_size (suc rounds) i prev count tokens =
      let start = i * block_size in
      let h = hash_block sha prev (slice start (start + block_size) tokens) in
      elim (snapshot h) [
        | none ↦ count
        | some _ ↦ snapshot_loop snapshot block_size rounds (i + 1) h (count + 1) tokens
      ]

  -- The body of the closure.
  unfoldable pub query : CachedBlocksFn → List ℕ → Result ℕ
  unfolding snapshot_loop
  query f tokens =
      if f.block_size == 0
      then panic divide_by_zero
      else ok (snapshot_loop f.snapshot f.block_size (length tokens / f.block_size) 0 "" 0 tokens)
