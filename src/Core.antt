-- ===== src/Core.antt =====
-- src/core: the value types of the store.
pub mod LineDiff
pub mod Names
pub mod Partition
pub mod Sources
pub mod Ids
pub mod Snapshots
pub mod Deltas
