-- ===== src/Tests.antt =====
-- Runs of the model at small inputs, and the theorems of the other files at concrete ones.
pub mod KvTests
pub mod QueueTests
pub mod CacheTests
pub mod CpuTierTests
pub mod KeyTests
pub mod PriorityTests
pub mod GatewayTests
pub mod PlacementTests
