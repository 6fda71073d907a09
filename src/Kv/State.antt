-- ===== src/Kv/State.antt =====
-- `KVBlock` and `KVCacheState`. A block is named by its ID, which is its index in `Blocks`; the
-- `PrevFree` and `NextFree` fields of the blocks and the `FreeHead` and `FreeTail` of the cache are
-- the list `free`. `HashToBlock` is a function, and `RequestMap` an association list.
use inference_sim.Prelude.{
  ℕ, String, List, Option, Bool, ℤ, ite, ℕ_discrete, string_discrete, some, none, Result, ok, panic,
  index_out_of_range, ltb, if◌then◌else◌, lookup, insert, ◌++◌, ◌∷◌, [],
}
use inference_sim.Dll.{Dll}

pub record Block : Type 0 where
  pub ref_count : ℤ
  pub in_use : Bool
  pub hash : String
  pub tokens : List ℕ

abbrev pub RequestMap : Type 0
RequestMap = List (String × List ℕ)

pub record Cache : Type 0 where
  pub total_blocks : ℕ
  pub block_size : ℕ
  pub blocks : ℕ → Block
  pub request_map : RequestMap
  pub hash_to_block : String → Option ℕ
  pub free : Dll
  pub free_block_cnt : ℤ
  pub cache_hits : ℕ
  pub cache_misses : ℕ

-- kvc.Blocks[id]
abbrev pub block_at : Cache → ℕ → Result Block
block_at s id = if ltb id s.total_blocks then ok (s.blocks id) else panic index_out_of_range

-- Assignments through a block pointer.
abbrev pub set_block : Cache → ℕ → Block → Cache
set_block s id b = record s { blocks = λ i. ite (ℕ_discrete i id) b (s.blocks i) }

-- kvc.HashToBlock[h] = id and delete(kvc.HashToBlock, h)
abbrev pub set_hash : Cache → String → Option ℕ → Cache
set_hash s h v = record s { hash_to_block = λ k. ite (string_discrete k h) v (s.hash_to_block k) }

-- The block sequence of a request, nil when it has none.
abbrev pub or_nil : Option (List ℕ) → List ℕ
or_nil none = []
or_nil (some ids) = ids

-- kvc.RequestMap[reqID] = append(kvc.RequestMap[reqID], id)
unfoldable pub append_id : RequestMap → String → ℕ → RequestMap
append_id m k id = insert string_discrete k (or_nil (lookup string_discrete k m) ++ id ∷ []) m
