-- ===== src/ResidentSet.antt =====
-- sim/lora/resident_set.go: the adapters that an instance holds in its GPU slots, an LRU list with a
-- map, whose entries in use are pinned. appendToTail and unlink are those of Dll.
mod Defs
pub mod Ordered
mod Scan
mod Refinement
mod Storing
mod Session
pub use Defs.{ResidentSet}
unfoldable pub use Defs.{
  new_resident_set, len, at_capacity, resident_ids, is_resident, touch, add, scan, evict_lru, store,
  pin, unpin,
}
pub use Scan.{Held, held}
pub use Refinement.*
pub use Storing.*
pub use Session.*
