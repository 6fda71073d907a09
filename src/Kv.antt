-- ===== src/Kv.antt =====
-- sim/kv/cache.go: the single-tier block cache `KVCacheState`.
pub mod State
pub mod FreeList
pub mod Lookup
pub mod Release
pub mod Allocate
mod Holds
pub mod Inv
pub mod Sharing
pub mod Fresh
pub mod Fill
pub mod Claim
pub mod Loop
pub mod Total
pub mod Allocation
pub mod Conservation
pub mod Construction
pub mod Prefix
