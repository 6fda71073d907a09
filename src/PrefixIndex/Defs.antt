-- ===== src/PrefixIndex/Defs.antt =====
-- The types and the operations.
use inference_sim.Prelude.{
  ℕ, zero, suc, String, List, [], ◌∷◌, some, none, ℤ, pos, negsuc, Result, ok, panic, bad_argument,
  violation, ◌>>=◌, leb, if◌then◌else◌, length, lookup, insert, string_discrete,
}
use inference_sim.Nodes.{Nodes, no_nodes, new_node, forget, push_front, detach}

pub record LruBlockCache : Type 0 where
  pub nodes : Nodes
  pub capacity : ℕ

pub record PrefixCacheIndex : Type 0 where
  pub block_size : ℕ
  pub lru_capacity : ℕ
  pub instances : List (String × LruBlockCache)

-- if n <= 0 { panic(...) }
abbrev pub positive : ℤ → Result ℕ
positive (pos zero) = panic bad_argument
positive (pos (suc n)) = ok (suc n)
positive (negsuc n) = panic bad_argument

-- NewPrefixCacheIndex
unfoldable pub new_prefix_cache_index : ℤ → ℤ → Result PrefixCacheIndex
new_prefix_cache_index block_size lru_capacity = do
  size ← positive block_size
  capacity ← positive lru_capacity
  ok (record { block_size = size; lru_capacity = capacity; instances = [] })

unfoldable pub new_cache : ℕ → LruBlockCache
new_cache capacity = record { nodes = no_nodes; capacity = capacity }

-- evictOldest, by its test on the tail.
unfoldable pub evict_oldest : LruBlockCache → Result LruBlockCache
unfolding forget detach
evict_oldest c = elim c.nodes.list.tail [
  | none ↦ panic violation
  | some n ↦ ok (record c { nodes = detach (forget c.nodes (c.nodes.key_of n)) n })
]

-- if len(c.lookup) >= c.capacity { c.evictOldest() }
unfoldable pub make_room : LruBlockCache → Result LruBlockCache
unfolding evict_oldest
make_room c = if leb c.capacity (length c.nodes.entries) then evict_oldest c else ok c

-- touch
unfoldable pub touch : LruBlockCache → String → Result LruBlockCache
unfolding make_room push_front detach new_node
touch c h = elim (lookup string_discrete h c.nodes.entries) [
  | some n ↦ ok (record c { nodes = push_front (detach c.nodes n) n })
  | none ↦ do
    c1 ← make_room c
    ok (record c1 { nodes = push_front (new_node c1.nodes h) c1.nodes.allocated })
]

-- The loop of RecordBlocks.
unfoldable pub touch_all : LruBlockCache → List String → Result LruBlockCache
touch_all c [] = ok c
touch_all c (h ∷ hashes) = do c1 ← touch c h; touch_all c1 hashes

-- The instance's cache, or a new one.
unfoldable pub cache_of : PrefixCacheIndex → String → LruBlockCache
unfolding new_cache
cache_of idx instance_id = elim (lookup string_discrete instance_id idx.instances) [
  | some c ↦ c
  | none ↦ new_cache idx.lru_capacity
]

-- RecordBlocks
unfoldable pub record_blocks : PrefixCacheIndex → List String → String → Result PrefixCacheIndex
unfolding cache_of
record_blocks idx hashes instance_id = do
  c ← touch_all (cache_of idx instance_id) hashes
  ok (record idx { instances = insert string_discrete instance_id c idx.instances })

-- The loop of MatchLength: the hashes from the start on that the map knows.
unfoldable pub matched : List (String × ℕ) → List String → ℕ
matched known [] = 0
matched known (h ∷ hashes) = elim (lookup string_discrete h known) [
  | some n ↦ suc (matched known hashes)
  | none ↦ 0
]

-- MatchLength
unfoldable pub match_length : PrefixCacheIndex → List String → String → ℕ
unfolding matched
match_length idx hashes instance_id = elim (lookup string_discrete instance_id idx.instances) [
  | none ↦ 0
  | some c ↦ matched c.nodes.entries hashes
]

-- InstanceBlockCount
unfoldable pub instance_block_count : PrefixCacheIndex → String → ℕ
instance_block_count idx instance_id = elim (lookup string_discrete instance_id idx.instances) [
  | none ↦ 0
  | some c ↦ length c.nodes.entries
]
