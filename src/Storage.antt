-- ===== src/Storage.antt =====
-- The SQLite tables of src/storage/sqlite.
pub mod Partitions
pub mod Checkpoints
pub mod Contents
pub mod Tables
