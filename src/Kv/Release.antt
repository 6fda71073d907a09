-- ===== src/Kv/Release.antt =====
-- commitCachedBlocks and ReleaseKVBlocks: how a request takes blocks that are there, and gives its
-- blocks back.
use inference_sim.Prelude.{
  ℕ, ◌+◌, String, List, [], ◌∷◌, true, false, incr, decr, is_zero, Result, ok, ◌>>=◌, lookup, erase,
  string_discrete, if◌then◌else◌,
}
use mathlib.Core.List.{reverse}
use inference_sim.Kv.State.{Cache, block_at, set_block, or_nil, append_id}
use inference_sim.Kv.FreeList.{append_to_free_list, remove_from_free_list}

-- blk.RefCount++; if !blk.InUse { blk.InUse = true; removeFromFreeList(blk) }
unfoldable pub acquire : Cache → ℕ → Cache
unfolding remove_from_free_list
acquire s id =
    let blk = s.blocks id in
    let s1 = set_block s id (record blk { ref_count = incr blk.ref_count; in_use = true }) in
    if blk.in_use then s1 else remove_from_free_list s1 id

-- One round of the loop of commitCachedBlocks.
unfoldable pub commit_block : Cache → String → ℕ → Cache
unfolding acquire append_id
commit_block s req_id id =
    let s1 = acquire s id in
    record s1 { cache_hits = s1.cache_hits + 1; request_map = append_id s1.request_map req_id id }

-- commitCachedBlocks. AllocateKVBlocks has the same loop written out.
unfoldable pub commit_cached_blocks : Cache → String → List ℕ → Result Cache
commit_cached_blocks s req_id [] = ok s
commit_cached_blocks s req_id (id ∷ ids) = do
  _ ← block_at s id
  commit_cached_blocks (commit_block s req_id id) req_id ids

-- blk.RefCount--; if blk.RefCount == 0 { blk.InUse = false; appendToFreeList(blk) }
unfoldable pub drop_block : Cache → ℕ → Cache
unfolding append_to_free_list
drop_block s id =
    let blk = s.blocks id in
    let count = decr blk.ref_count in
    if is_zero count
    then append_to_free_list (set_block s id (record blk { ref_count = count; in_use = false })) id
    else set_block s id (record blk { ref_count = count })

-- The loop of ReleaseKVBlocks, over the indices from the last to the first.
unfoldable pub drop_blocks : Cache → List ℕ → Result Cache
drop_blocks s [] = ok s
drop_blocks s (id ∷ ids) = do _ ← block_at s id; drop_blocks (drop_block s id) ids

-- ReleaseKVBlocks
unfoldable pub release_kv_blocks : Cache → String → Result Cache
release_kv_blocks s req_id =
    drop_blocks (record s { request_map = erase string_discrete req_id s.request_map })
      (reverse (or_nil (lookup string_discrete req_id s.request_map)))
