-- ===== src/Kv/Prefix.antt =====
-- The queries against the chained hashes of the router: which prefix is found.
use inference_sim.Prelude.{
  ℕ, zero, suc, ◌+◌, ◌-◌, ◌*◌, ◌/◌, ◌≡◌, refl, ◌∙◌, ap, String, List, [], ◌∷◌, Option, some, none,
  length, take, drop, arith, ok, ◌>>=◌, ◌==◌, false, Bool-cases, Option-cases, inl, inr,
}
use inference_sim.Hash.{Sha, hash_block, block_hashes_loop, compute_block_hashes, write_tokens}
use inference_sim.Kv.State.{Cache}
use inference_sim.Kv.Lookup.{
  slice, cached_loop, get_cached_blocks, snapshot_loop, query, snapshot_cached_blocks_fn,
}

-- The blocks that the table knows for the leading hashes, up to the first that it does not know.
abbrev pub known_prefix : (String → Option ℕ) → List String → List ℕ
known_prefix known [] = []
known_prefix known (h ∷ hs) = elim (known h) [ none ↦ [] | some id ↦ id ∷ known_prefix known hs ]

module _ (sha : Sha) where
  same_block :
      (i size : ℕ) (prev : String) (tokens : List ℕ)
      → hash_block sha prev (slice (i * size) (i * size + size) tokens)
        ≡ sha.digest (write_tokens sha prev (take size (drop (i * size) tokens)))
  unfolding hash_block
  same_block i size prev tokens =
      let e : i * size + size - i * size ≡ size = omega arith in
      ap (λ n. sha.digest (write_tokens sha prev (take n (drop (i * size) tokens)))) e

  cached_loop-known :
      (known : String → Option ℕ) (size rounds i : ℕ) (prev : String) (tokens : List ℕ)
      → cached_loop sha known size rounds i prev tokens
        ≡ known_prefix known (block_hashes_loop sha rounds i size prev tokens)
  unfolding cached_loop block_hashes_loop
  cached_loop-known known size zero i prev tokens = refl
  cached_loop-known known size (suc rounds) i prev tokens =
      let h = sha.digest (write_tokens sha prev (take size (drop (i * size) tokens))) in
      let step : String → List ℕ = λ g. elim (known g) [
        | none ↦ []
        | some id ↦ id ∷ cached_loop sha known size rounds (i + 1) g tokens
      ] in
      let here : step h
          ≡ known_prefix known (h ∷ block_hashes_loop sha rounds (i + 1) size h tokens) =
        elim (Option-cases (known h)) [
          | inl e ↦ rw (e, known_prefix) refl
          | inr (id, e) ↦
              rw (e, known_prefix)
                (ap (◌∷◌ id) (cached_loop-known known size rounds (i + 1) h tokens))
        ] in
      ap step (same_block i size prev tokens) ∙ here

  hashes_of :
      (size : ℕ) (tokens : List ℕ) (hashes : List String)
      → compute_block_hashes sha size tokens ≡ ok hashes
      → block_hashes_loop sha (length tokens / size) 0 size "" tokens ≡ hashes
  unfolding compute_block_hashes
  hashes_of size tokens hashes e = ground arith

  positive_size :
      (size : ℕ) (tokens : List ℕ) (hashes : List String)
      → compute_block_hashes sha size tokens ≡ ok hashes
      → (size == 0) ≡ false
  unfolding compute_block_hashes
  positive_size size tokens hashes e = ground arith

  -- Where ComputeBlockHashes returns hashes for the cache's block size, GetCachedBlocks does not panic
  -- and returns the blocks that the table gives for the longest prefix of those hashes that it knows, in order.
  pub get_cached_blocks-known_prefix :
      (s : Cache) (tokens : List ℕ) (hashes : List String)
      → compute_block_hashes sha s.block_size tokens ≡ ok hashes
      → get_cached_blocks sha s tokens ≡ ok (known_prefix s.hash_to_block hashes)
  unfolding get_cached_blocks
  get_cached_blocks-known_prefix s tokens hashes e =
      rw (positive_size s.block_size tokens hashes e) (
        ap (λ ids. ok ids)
          (cached_loop-known s.hash_to_block s.block_size (length tokens / s.block_size) 0 "" tokens
            ∙ ap (known_prefix s.hash_to_block) (hashes_of s.block_size tokens hashes e)))

  snapshot_loop-length :
      (known : String → Option ℕ) (size rounds i : ℕ) (prev : String) (n : ℕ) (tokens : List ℕ)
      → snapshot_loop sha known size rounds i prev n tokens
        ≡ n + length (cached_loop sha known size rounds i prev tokens)
  unfolding snapshot_loop cached_loop
  snapshot_loop-length known size zero i prev n tokens = omega arith
  snapshot_loop-length known size (suc rounds) i prev n tokens =
      let h = hash_block sha prev (slice (i * size) (i * size + size) tokens) in
      elim (Option-cases (known h)) [
        | inl e ↦ rw (e, snapshot_loop, cached_loop) (omega arith)
        | inr (id, e) ↦
            rw (e, snapshot_loop, cached_loop)
              (omega (arith, snapshot_loop-length known size rounds (i + 1) h (n + 1) tokens))
      ]

  -- The function that SnapshotCachedBlocksFn makes of a cache does on any tokens what GetCachedBlocks
  -- does on that cache: it counts the blocks that GetCachedBlocks lists, and divides by zero where
  -- GetCachedBlocks does.
  pub snapshot_cached_blocks_fn-length :
      (s : Cache) (tokens : List ℕ)
      → query sha (snapshot_cached_blocks_fn s) tokens
        ≡ (do ids ← get_cached_blocks sha s tokens; ok (length ids))
  unfolding snapshot_cached_blocks_fn query get_cached_blocks
  snapshot_cached_blocks_fn-length s tokens = elim (Bool-cases (s.block_size == 0)) [
    | inl empty ↦ rw empty refl
    | inr sized ↦ rw sized (
        ap (λ n. ok n)
          (snapshot_loop-length s.hash_to_block s.block_size (length tokens / s.block_size) 0 "" 0
              tokens
            ∙ omega arith))
  ]
