-- ===== src/Hash/Defs.antt =====
-- The two functions of the package.
use Prim.Native.String.{◌++◌ as concat}
use inference_sim.Prelude.{
  ℕ, zero, suc, ◌+◌, ◌*◌, ◌/◌, String, List, [], ◌∷◌, length, take, drop, Result, ok, panic,
  bad_argument, if◌then◌else◌, ◌==◌,
}

pub record Sha : Type 0 where
  -- hex.EncodeToString of the SHA256 sum of the bytes written
  pub digest : String → String
  -- strconv.AppendInt in base 10
  pub decimal : ℕ → String

module _ (sha : Sha) where
  -- What the loop over the tokens writes: each in decimal, a pipe behind it.
  unfoldable pub write_tokens : String → List ℕ → String
  write_tokens written [] = written
  write_tokens written (t ∷ ts) = write_tokens (concat written (concat (sha.decimal t) "|")) ts

  -- HashBlock
  unfoldable pub hash_block : String → List ℕ → String
  unfolding write_tokens
  hash_block prev tokens = sha.digest (write_tokens prev tokens)

  -- The loop of ComputeBlockHashes: block i of the rounds left, with the hash of the block before.
  unfoldable pub block_hashes_loop : ℕ → ℕ → ℕ → String → List ℕ → List String
  unfolding write_tokens
  block_hashes_loop zero i block_size prev tokens = []
  block_hashes_loop (suc rounds) i block_size prev tokens =
      let h = sha.digest (write_tokens prev (take block_size (drop (i * block_size) tokens))) in
      h ∷ block_hashes_loop rounds (i + 1) block_size h tokens

  -- ComputeBlockHashes
  unfoldable pub compute_block_hashes : ℕ → List ℕ → Result (List String)
  unfolding block_hashes_loop
  compute_block_hashes block_size tokens =
      if block_size == 0
      then panic bad_argument
      else ok (block_hashes_loop (length tokens / block_size) 0 block_size "" tokens)
