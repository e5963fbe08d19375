-- ===== src/Checkpoint.antt =====
-- src/checkpoint: the version graph and the time index.
pub mod Dag
pub mod Types
pub mod Repo
pub mod Restore
pub mod Transaction
pub mod TimeIndex
