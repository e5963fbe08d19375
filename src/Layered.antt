-- ===== src/Layered.antt =====
-- The layers of src/layered, over the partition table and a table of snapshots.
pub mod Ensure
pub mod Transition
pub mod Contents
pub mod Edits
