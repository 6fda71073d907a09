-- ===== src/KvKey.antt =====
-- sim/internal/kvkey/kvkey.go: the content keys of chunks, and the table that numbers them. A
-- BlockKey is its text and a KeyID a number.
use inference_sim.Prelude.{
  ℕ, zero, suc, ◌+◌, ◌*◌, ◌/◌, String, List, [], ◌∷◌, ◌++◌, Option, some, none, ℤ, pos, negsuc,
  Result, ok, panic, bad_argument, length, get_elem?, take, drop, lookup, insert, string_discrete,
  if◌then◌else◌, ◌==◌,
}
use inference_sim.Hash.{Sha, hash_block}
pub mod Interning
pub mod Chunks

pub record Interner : Type 0 where
  pub ids : List (String × ℕ)
  pub keys : List String

-- NewInterner
unfoldable pub new_interner : Interner
new_interner = record { ids = []; keys = [] }

-- Intern
unfoldable pub intern : Interner → String → Interner × ℕ
intern tab k = elim (lookup string_discrete k tab.ids) [
  | some id ↦ (tab, id)
  | none ↦ (
    record { ids = insert string_discrete k (length tab.keys) tab.ids; keys = tab.keys ++ k ∷ [] },
    length tab.keys,
  )
]

-- Key
unfoldable pub key_at : Interner → ℤ → Option String
key_at tab (negsuc n) = none
key_at tab (pos n) = get_elem? tab.keys n

module _ (sha : Sha) where
  -- The loop of DeriveChunkKeys: chunk i of the rounds left.
  unfoldable pub chunk_keys_loop : ℕ → ℕ → ℕ → String → List ℕ → List String
  chunk_keys_loop zero i size prev tokens = []
  chunk_keys_loop (suc rounds) i size prev tokens =
      let h = hash_block sha prev (take size (drop (i * size) tokens)) in
      h ∷ chunk_keys_loop rounds (i + 1) size h tokens

  -- DeriveChunkKeys
  unfoldable pub derive_chunk_keys : String → List ℕ → ℕ → Result (List String)
  unfolding chunk_keys_loop
  derive_chunk_keys prev tokens size =
      if size == 0
      then panic bad_argument
      else ok (chunk_keys_loop (length tokens / size) 0 size prev tokens)
