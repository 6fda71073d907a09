-- ===== src/CpuTier.antt =====
-- sim/kv/offload_cputier.go: the CPU staging tier of the KV offload, a bounded store of blocks by
-- content key, whose LRU list holds exactly the blocks that may be evicted.
mod Defs
mod Unlinking
mod Inv
mod Steps
mod Storing
mod Pending
mod Promoting
mod Pinning
pub use Defs.{OffloadCpuTier, CpuLookupResult, cpu_miss, cpu_hit, cpu_hit_pending}
unfoldable pub use Defs.{
  new_offload_cpu_tier, look_up, evict, evict_rounds, evict_head, store, fresh_keys, add_pending,
  prepare_store, complete_store, pin, unpin, touch_key,
}
pub use Inv.{TierInv, idle}
pub use Steps.{Evicted, IsWithout, KeepsLocked, evict_rounds-Evicted}
pub use Pending.{NoRepeat, IsPending}
pub use Storing.*
pub use Promoting.*
pub use Pinning.*
