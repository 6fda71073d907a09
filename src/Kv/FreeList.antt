-- ===== src/Kv/FreeList.antt =====
-- The free list: appendToFreeList, removeFromFreeList, popFreeBlock, countFreeBlocks, the constructor
-- and the walk that checks the counters.
use inference_sim.Prelude.{
  ℕ, zero, suc, ◌+◌, pos, incr, decr, eqb_ℤ, Option, some, none, Bool, false, [], Result, ok, panic,
  require, bad_argument, out_of_fuel, ◌>>=◌, ◌>>◌, if◌then◌else◌, ◌==◌, not, ◌&&◌,
}
use inference_sim.Dll
use inference_sim.Dll.{Table}
use inference_sim.Kv.State.{Block, Cache, set_block}

-- appendToFreeList
unfoldable pub append_to_free_list : Cache → ℕ → Cache
append_to_free_list s b = record s {
  free_block_cnt = incr s.free_block_cnt;
  free = Dll.append_tail s.free b;
}

-- removeFromFreeList
unfoldable pub remove_from_free_list : Cache → ℕ → Cache
remove_from_free_list s b = record s {
  free_block_cnt = decr s.free_block_cnt;
  free = Dll.unlink s.free b;
}

-- popFreeBlock, by its test on the head: nil when the list is empty. The hash entry stays.
unfoldable pub pop_head : Cache → Option ℕ → Option (Cache × ℕ)
unfolding remove_from_free_list
pop_head s none = none
pop_head s (some b) =
    let s1 = remove_from_free_list s b in
    some (set_block s1 b (record (s1.blocks b) { tokens = [] }), b)

unfoldable pub pop_free_block : Cache → Option (Cache × ℕ)
unfolding pop_head
pop_free_block s = pop_head s s.free.head

unfoldable pub empty_block : Block
empty_block = record { ref_count = pos 0; in_use = false; hash = ""; tokens = [] }

-- The loop of NewKVCacheState: block i of the rounds left.
unfoldable pub fill_free_list : ℕ → ℕ → Cache → Cache
unfolding append_to_free_list
fill_free_list zero i s = s
fill_free_list (suc rounds) i s = fill_free_list rounds (i + 1) (append_to_free_list s i)

abbrev pub blank : ℕ → ℕ → Cache
blank total_blocks block_size = record {
  total_blocks = total_blocks;
  block_size = block_size;
  blocks = λ i. empty_block;
  request_map = [];
  hash_to_block = λ h. none;
  free = Dll.empty;
  free_block_cnt = pos 0;
  cache_hits = 0;
  cache_misses = 0;
}

-- NewKVCacheState
unfoldable pub new_kv_cache_state : ℕ → ℕ → Result Cache
unfolding fill_free_list empty_block
new_kv_cache_state total_blocks block_size = do
  require (not (total_blocks == 0)) bad_argument
  require (not (block_size == 0)) bad_argument
  ok (fill_free_list total_blocks 0 (blank total_blocks block_size))

-- The first loop of verifyBlockConservation, on fuel: the nodes met from `node` on.
unfoldable pub walk : ℕ → Table → Option ℕ → Result ℕ
walk zero t none = ok 0
walk zero t (some b) = panic out_of_fuel
walk (suc fuel) t none = ok 0
walk (suc fuel) t (some b) = do n ← walk fuel t (t b).next; ok (suc n)

-- Its second loop: the blocks in use below the index.
unfoldable pub in_use_count : (ℕ → Block) → ℕ → ℕ
in_use_count blocks zero = 0
in_use_count blocks (suc i) =
    let rest = in_use_count blocks i in if (blocks i).in_use then suc rest else rest

-- verifyBlockConservation: true when it returns nil.
unfoldable pub verify_block_conservation : ℕ → Cache → Result Bool
unfolding walk in_use_count
verify_block_conservation fuel s = do
  free_list_len ← walk fuel s.free.links s.free.head
  ok (
      free_list_len + in_use_count s.blocks s.total_blocks == s.total_blocks
      && eqb_ℤ (pos free_list_len) s.free_block_cnt)
