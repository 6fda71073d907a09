-- ===== src/PrefixIndex.antt =====
-- sim/prefix_cache_index.go: the router's record of the blocks that each instance has seen, an LRU
-- list with a lookup map per instance. pushHead and removeNode are those of Dll; their panics on a
-- nil node have no counterpart, since each call hands over a node.
mod Defs
mod Recency
mod Bounds
mod Counting
mod Session
pub use Defs.{LruBlockCache, PrefixCacheIndex}
unfoldable pub use Defs.{
  new_prefix_cache_index, new_cache, cache_of, evict_oldest, make_room, touch, touch_all,
  record_blocks, match_length, matched, instance_block_count,
}
pub use Recency.{LruInv, recent, recent_all, touch-recent}
pub use Bounds.{Seen, prefix_seen, record_blocks-Seen, match_length-prefix_seen}
pub use Counting.{instance_block_count-record_blocks}
pub use Session.{
  Served, fresh_index, fresh_index-Seen, record_all, seen_by, new_prefix_cache_index-Served,
}
