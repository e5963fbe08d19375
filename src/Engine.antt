-- ===== src/Engine.antt =====
-- src/engine: line diffs, their application, and the three-way merge.
pub mod Lines
pub mod Apply
pub mod Diff
pub mod Merge
