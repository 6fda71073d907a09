-- ===== src/KvKey/Chunks.antt =====
-- Chunk keys at the block stride are the block hashes.
use inference_sim.Prelude.{
  ℕ, zero, suc, ◌+◌, ◌*◌, ◌/◌, ◌≡◌, refl, ap, String, List, ◌∷◌, ok, length, take, drop, ◌==◌,
  Bool-cases, inl, inr,
}
use inference_sim.Hash.{Sha, hash_block, block_hashes_loop, compute_block_hashes}
use inference_sim.KvKey.{chunk_keys_loop, derive_chunk_keys}

module _ (sha : Sha) where
  loops_agree :
      (rounds i size : ℕ) (prev : String) (tokens : List ℕ)
      → chunk_keys_loop sha rounds i size prev tokens
        ≡ block_hashes_loop sha rounds i size prev tokens
  unfolding chunk_keys_loop block_hashes_loop hash_block
  loops_agree zero i size prev tokens = refl
  loops_agree (suc rounds) i size prev tokens =
      let h = hash_block sha prev (take size (drop (i * size) tokens)) in
      ap (◌∷◌ h) (loops_agree rounds (i + 1) size h tokens)

  -- DeriveChunkKeys at the block size with no key before is ComputeBlockHashes, its panic on a stride
  -- of 0 included.
  pub derive_chunk_keys-compute_block_hashes :
      (tokens : List ℕ) (size : ℕ)
      → derive_chunk_keys sha "" tokens size ≡ compute_block_hashes sha size tokens
  unfolding derive_chunk_keys compute_block_hashes
  derive_chunk_keys-compute_block_hashes tokens size = elim (Bool-cases (size == 0)) [
    | inl e ↦ rw e refl
    | inr e ↦ rw e (ap ok (loops_agree (length tokens / size) 0 size "" tokens))
  ]
