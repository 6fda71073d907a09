-- ===== src/Tests/CacheTests.antt =====
-- The router's index of sim/prefix_cache_index.go with room for two blocks an instance, and the
-- resident set of sim/lora/resident_set.go with two slots.
use inference_sim.Prelude.{
  ℕ, ◌+◌, ◌≤◌, ◌<◌, ◌≡◌, ◌≢◌, String, List, [], ◌∷◌, ok, panic, bad_argument, ℤ, pos, ltb_ℤ, length,
  Bool, false, ◌&&◌, ◌⊎◌, map,
}
use inference_sim.Nodes.{names}
use inference_sim.PrefixIndex
use inference_sim.PrefixIndex.{
  PrefixCacheIndex, LruBlockCache, LruInv, Seen, new_prefix_cache_index, cache_of, touch, recent,
  recent_all, record_blocks, match_length, prefix_seen, instance_block_count,
}
use inference_sim.ResidentSet
use inference_sim.ResidentSet.{
  ResidentSet, Call, storing, touching, pinning, unpinning, evicting, new_resident_set, Held, held,
  evict_lru, store, resident_ids, pin, unpin,
}
use inference_sim.ResidentSet.Ordered.{touched, evicted, stored, pinned, unpinned}

-- Two instances' blocks, the first ones more than there is room for.
abbrev arrivals : List (List String × String)
arrivals = ("a" ∷ "b" ∷ "a" ∷ "c" ∷ [], "pod") ∷ ("z" ∷ [], "other") ∷ ("b" ∷ [], "pod") ∷ []

new_prefix_cache_index-Served_example :
    (((ltb_ℤ (pos 0) (pos 16) && ltb_ℤ (pos 0) (pos 2)) ≡ false)
      × (new_prefix_cache_index (pos 16) (pos 2) ≡ panic bad_argument))
    ⊎ ((size n : ℕ) × (idx : PrefixCacheIndex) × (0 < size)
        × (0 < n)
        × (◌≡◌ {A = ℤ} (pos 16) (pos size))
        × (◌≡◌ {A = ℤ} (pos 2) (pos n))
        × (new_prefix_cache_index (pos 16) (pos 2) ≡ ok idx)
        × (idx.block_size ≡ size)
        × PrefixIndex.Served n arrivals idx)
new_prefix_cache_index-Served_example =
    PrefixIndex.new_prefix_cache_index-Served (pos 16) (pos 2) arrivals

abbrev fresh_index : PrefixCacheIndex
fresh_index = PrefixIndex.fresh_index 16 2

abbrev fresh_index-Seen : (i : String) → Seen fresh_index i []
fresh_index-Seen = PrefixIndex.fresh_index-Seen 16 1

-- Four blocks, one of them twice, in room for two.
abbrev blocks : List String
blocks = "a" ∷ "b" ∷ "a" ∷ "c" ∷ []

record_blocks-Seen_example :
    (idx1 : PrefixCacheIndex) × (record_blocks fresh_index blocks "pod" ≡ ok idx1)
    × Seen idx1 "pod" (recent_all fresh_index.lru_capacity blocks [])
    × ((j : String) (js : List String) → j ≢ "pod" → Seen fresh_index j js → Seen idx1 j js)
record_blocks-Seen_example =
    PrefixIndex.record_blocks-Seen fresh_index blocks "pod" [] (fresh_index-Seen "pod")

abbrev filled_index :
    (idx1 : PrefixCacheIndex) × (record_blocks fresh_index blocks "pod" ≡ ok idx1)
    × Seen idx1 "pod" (recent_all fresh_index.lru_capacity blocks [])
    × ((j : String) (js : List String) → j ≢ "pod" → Seen fresh_index j js → Seen idx1 j js)
filled_index = PrefixIndex.record_blocks-Seen fresh_index blocks "pod" [] (fresh_index-Seen "pod")

touch-recent_example :
    (c1 : LruBlockCache) × (l1 : List ℕ) × (touch (cache_of filled_index.0 "pod") "d" ≡ ok c1)
    × LruInv c1 l1
    × (c1.capacity ≡ (cache_of filled_index.0 "pod").capacity)
    × (names c1.nodes l1
        ≡ recent
            (cache_of filled_index.0 "pod").capacity
            "d"
            (names (cache_of filled_index.0 "pod").nodes filled_index.2.nodes_of))
touch-recent_example =
    PrefixIndex.touch-recent (cache_of filled_index.0 "pod") filled_index.2.nodes_of "d"
      filled_index.2.inv

-- Two more blocks for an instance that is at its capacity.
instance_block_count-record_blocks_example :
    (idx1 : PrefixCacheIndex) × (record_blocks filled_index.0 ("d" ∷ "e" ∷ []) "pod" ≡ ok idx1)
    × (instance_block_count filled_index.0 "pod" ≤ instance_block_count idx1 "pod")
    × (instance_block_count idx1 "pod"
        ≤ instance_block_count filled_index.0 "pod" + length {A = String} ("d" ∷ "e" ∷ []))
    × (instance_block_count idx1 "pod" ≤ filled_index.0.lru_capacity)
    × ((j : String) (js : List String)
        → j ≢ "pod"
        → Seen filled_index.0 j js
        → instance_block_count idx1 j ≡ instance_block_count filled_index.0 j)
instance_block_count-record_blocks_example =
    PrefixIndex.instance_block_count-record_blocks filled_index.0 ("d" ∷ "e" ∷ []) "pod"
      (recent_all fresh_index.lru_capacity blocks []) filled_index.2

match_length-prefix_seen_example :
    match_length filled_index.0 blocks "pod"
    ≡ prefix_seen (recent_all fresh_index.lru_capacity blocks []) blocks
match_length-prefix_seen_example =
    PrefixIndex.match_length-prefix_seen filled_index.0 blocks "pod"
      (recent_all fresh_index.lru_capacity blocks []) filled_index.2

-- Two adapters, of which the older is in use when a third one comes.
abbrev uses : List Call
uses =
    storing "x"
    ∷ pinning "x"
    ∷ storing "y"
    ∷ storing "z"
    ∷ unpinning "x"
    ∷ touching "z"
    ∷ evicting
    ∷ []

new_resident_set-Served_example :
    ((ltb_ℤ (pos 0) (pos 2) ≡ false) × (new_resident_set (pos 2) ≡ panic bad_argument))
    ⊎ ((n : ℕ) × (s : ResidentSet) × (0 < n)
        × (◌≡◌ {A = ℤ} (pos 2) (pos n))
        × (new_resident_set (pos 2) ≡ ok s)
        × ResidentSet.Served n uses s)
new_resident_set-Served_example = ResidentSet.new_resident_set-Served (pos 2) uses

abbrev empty_set : ResidentSet
empty_set = ResidentSet.fresh_set 1

abbrev empty_set-Held : Held empty_set []
empty_set-Held = ResidentSet.fresh-Held 1

store-stored_example :
    (s1 : ResidentSet) × (l1 : List ℕ) × (gone : String) × (done : Bool) × (store empty_set "x"
      ≡ ok (s1, gone, done))
    × Held s1 l1
    × (s1.capacity ≡ empty_set.capacity)
    × ((held s1 l1, gone, done) ≡ stored empty_set.capacity "x" (held empty_set []))
store-stored_example = ResidentSet.store-stored empty_set [] empty_set-Held "x"

abbrev one_adapter :
    (s1 : ResidentSet) × (l1 : List ℕ) × (gone : String) × (done : Bool) × (store empty_set "x"
      ≡ ok (s1, gone, done))
    × Held s1 l1
    × (s1.capacity ≡ empty_set.capacity)
    × ((held s1 l1, gone, done) ≡ stored empty_set.capacity "x" (held empty_set []))
one_adapter = ResidentSet.store-stored empty_set [] empty_set-Held "x"

evict_lru-evicted_example :
    (s1 : ResidentSet) × (l1 : List ℕ) × (id : String) × (found : Bool) × (evict_lru one_adapter.0
      ≡ ok (s1, id, found))
    × Held s1 l1
    × (s1.capacity ≡ one_adapter.0.capacity)
    × ((held s1 l1, id, found) ≡ evicted (held one_adapter.0 one_adapter.1))
evict_lru-evicted_example = ResidentSet.evict_lru-evicted one_adapter.0 one_adapter.1 one_adapter.5

touch-touched_example :
    (l1 : List ℕ) × Held (ResidentSet.touch one_adapter.0 "x") l1
    × ((ResidentSet.touch one_adapter.0 "x").capacity ≡ one_adapter.0.capacity)
    × (held (ResidentSet.touch one_adapter.0 "x") l1
        ≡ touched "x" (held one_adapter.0 one_adapter.1))
touch-touched_example = ResidentSet.touch-touched one_adapter.0 one_adapter.1 one_adapter.5 "x"

pin-pinned_example :
    Held (pin one_adapter.0 "x") one_adapter.1
    × (held (pin one_adapter.0 "x") one_adapter.1 ≡ pinned "x" (held one_adapter.0 one_adapter.1))
pin-pinned_example = ResidentSet.pin-pinned one_adapter.0 one_adapter.1 one_adapter.5 "x"

-- An adapter with one pin.
unpin-unpinned_example :
    Held (unpin (pin one_adapter.0 "x") "x") one_adapter.1
    × (held (unpin (pin one_adapter.0 "x") "x") one_adapter.1
        ≡ unpinned "x" (held (pin one_adapter.0 "x") one_adapter.1))
unpin-unpinned_example =
    ResidentSet.unpin-unpinned (pin one_adapter.0 "x") one_adapter.1
      (ResidentSet.pin-pinned one_adapter.0 one_adapter.1 one_adapter.5 "x").0 "x"

resident_ids-held_example :
    resident_ids one_adapter.0
    ≡ ok (map (λ (e : String × ℕ). e.0) (held one_adapter.0 one_adapter.1))
resident_ids-held_example = ResidentSet.resident_ids-held one_adapter.0 one_adapter.1 one_adapter.5
