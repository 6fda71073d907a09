-- ===== src/Dll.antt =====
-- The intrusive doubly linked list that three components write out by hand: the free list of
-- sim/kv/cache.go (appendToFreeList, removeFromFreeList), the LRU list of
-- sim/prefix_cache_index.go (pushHead, removeNode) and that of sim/lora/resident_set.go
-- (appendToTail, unlink). A node is its address, a number; the `prev` and `next` fields that the
-- source keeps inside the node are the table `links`, and nil is `none`. Each assignment of the
-- source is one write, in the source's order.
mod Segment
mod List
mod Adding
mod Removing
pub use Segment.{Links, Table, Chain, first_or, last_or, set_prev, set_next}
unfoldable pub use Segment.{remove}
pub use List.{Dll}
unfoldable pub use List.{bypass_prev, bypass_next, empty, append_tail, push_head, unlink}
pub use Adding.*
pub use Removing.*
