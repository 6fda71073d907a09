-- ===== src/Tests/KeyTests.antt =====
-- The keys of sim/internal/kvkey/kvkey.go.
use inference_sim.Prelude.{ℕ, ◌≡◌, String, some, pos}
use inference_sim.KvKey.{Interner, new_interner, intern, key_at}
use inference_sim.KvKey.Interning
use inference_sim.KvKey.Interning.{Inverse, new_interner-Inverse}
use inference_sim.KvKey.Chunks
use inference_sim.KvKey.{derive_chunk_keys}
use inference_sim.Hash.{Sha, compute_block_hashes}
use inference_sim.Prelude.{[], ◌∷◌}

-- A stand-in for SHA256: the text hashed is its own digest.
abbrev echo : Sha
echo = record { digest = λ s. s; decimal = λ n. "t" }

-- One key numbered.
abbrev one_key : Interner
one_key = (intern new_interner "a").0

intern-Inverse_example :
    Inverse (intern one_key "b").0
    × (key_at (intern one_key "b").0 (pos (intern one_key "b").1) ≡ some "b")
    × ((j : String) (id : ℕ)
        → key_at one_key (pos id) ≡ some j
        → key_at (intern one_key "b").0 (pos id) ≡ some j)
    × (intern (intern one_key "b").0 "b" ≡ intern one_key "b")
intern-Inverse_example =
    Interning.intern-Inverse one_key "b"
      (Interning.intern-Inverse new_interner "a" new_interner-Inverse).0

derive_chunk_keys-compute_block_hashes_example :
    derive_chunk_keys echo "" (5 ∷ 6 ∷ 7 ∷ []) 2 ≡ compute_block_hashes echo 2 (5 ∷ 6 ∷ 7 ∷ [])
derive_chunk_keys-compute_block_hashes_example =
    Chunks.derive_chunk_keys-compute_block_hashes echo (5 ∷ 6 ∷ 7 ∷ []) 2
