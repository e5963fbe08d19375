-- ===== src/Lib.antt =====
-- Layertwine keeps versions of texts in layers. An edit is stored as a line diff (a delta) on a
-- snapshot; partitions point to snapshots, one for manual edits, and one for each agent, approval,
-- feature, and for what is staged; forward flows merge a layer into the next by a three-way merge of
-- texts, and rollbacks move a pointer back. Commits are checkpoints in a repository with branches, a
-- version graph and an index by time; a repository with a storage writes each change to its tables,
-- and is loaded from them.
--
-- The files, and the code each is about:
--   Prelude               shared: Boolean tests, texts, native lists, the result type with the variants
--                         of LayertwineError (src/error.rs), association lists for maps
--   Core.LineDiff         DiffOp, Hunk, LineDiff (src/core/types.rs), Delta::summary (src/core/delta.rs)
--   Core.Names            LayerType and PartitionType with their names (src/core/types.rs)
--   Core.Partition        Partition: advance, rollback_to, rollback_one (src/core/partition.rs)
--   Core.Sources          SourceType::matches_glob (src/core/types.rs)
--   Core.Ids              ContentId, its bytes and its hexadecimal form (src/core/types.rs)
--   Core.Snapshots        FileNode, Snapshot, SnapshotContent (src/core/file_node.rs,
--                         src/core/snapshot.rs), and the child Builder for SnapshotBuilder
--   Core.Deltas           Delta and its id (src/core/delta.rs), SourceType (src/core/types.rs)
--   Engine.Lines          str::lines, join and ends_with of the standard library, as the engine uses them
--   Engine.Apply          apply_deltas and apply_line_diff (src/engine/merge.rs)
--   Engine.Diff           diff_to_line_diff (src/engine/diff.rs)
--   Engine.Merge          merge_texts and its helpers (src/engine/merge.rs): take_change, take_conflict
--                         and take_both are the branches of its loop, merge_loop the loop
--   Checkpoint.Dag        CheckpointDag (src/checkpoint/dag.rs): search_popped is the search of
--                         would_create_cycle, search_children that of is_ancestor, collect that of
--                         ancestors, first_of_set that of merge_base
--   Checkpoint.TimeIndex  TimeIndex (src/checkpoint/time_index.rs)
--   Checkpoint.Types      Checkpoint, CheckpointDiff, CheckpointBuilder (src/checkpoint/types.rs), Branch
--                         (src/checkpoint/branch.rs); now is what the clock reads
--   Checkpoint.Repo       CheckpointRepo (src/checkpoint/repo.rs), its commits, merges and branches, each
--                         with the repository after it, also after an error; the child Load has load,
--                         rebuild_dag, attach_storage and sync_all, the child History the log, the
--                         ancestry, the removal of checkpoints and the snapshots. record_checkpoint is
--                         what commit, commit_allow_empty and merge_branches have in common: entered
--                         changes the memory, persist writes, kept adds the checkpoint to the map.
--                         The other children are lemmas: Valid has the invariant, Backed the agreement of
--                         memory and tables, Commits, Switches, Root, Reload and Failures the operations
--   Checkpoint.Transaction  CheckpointTransaction (src/checkpoint/transaction.rs): store_all is the first
--                         phase of its commit
--   Checkpoint.Restore    the restores (src/checkpoint/restore.rs); the child Inspect has list_snapshots,
--                         diff_checkpoints and validate_integrity, the child Apply has apply_restore
--   Storage.Checkpoints   the CheckpointPersist, MetadataStore and DagStore of SqliteStorage
--                         (src/storage/sqlite/checkpoint.rs, dag.rs), with store_snapshot and
--                         get_snapshot (src/storage/sqlite/snapshot.rs), on the tables of
--                         src/storage/migrations.rs as lists of rows
--   Storage.Partitions    the PartitionStore of SqliteStorage (src/storage/sqlite/partition.rs) on the
--                         tables of src/storage/migrations.rs
--   Storage.Contents      the DeltaStore and FileNodeStore of SqliteStorage (src/storage/sqlite/delta.rs,
--                         file_node.rs)
--   Storage.Tables        update_pointer_internal (src/storage/sqlite/partition.rs) with each of its
--                         writes, on all tables of one storage
--   Layered.Ensure        the partitions of the layers (src/layered/manual.rs, agent.rs, approval.rs,
--                         integrated.rs, staged.rs) and reject_approval
--   Layered.Transition    the flow checks, pointer moves and rollbacks (src/layered/transition.rs), and
--                         discard_agent_edit (src/layered/agent.rs)
--   Layered.Contents      reconstruct_text and has_parent_of_type (src/layered/transition.rs)
--   Layered.Edits         apply_manual_edit (src/layered/manual.rs) and apply_agent_edit
--                         (src/layered/agent.rs), whose common steps are apply_edit
--   Tests                 runs on concrete inputs
-- The diff uses Core.LineDiff, the merge uses the diff, and Layered.Transition moves the pointers of
-- Storage.Partitions, whose rows are those of Core.Partition. Checkpoint.Repo uses the graph, the time
-- index and Storage.Checkpoints.
--
-- Code outside the repository is a parameter: the grouped operations of the crate `similar`
-- (grouped_ops, with IsScript as what it documents), and Uuid::new_v5 of the uuid crate. A content id
-- is the number that its 32 bytes write; blake3 stands for the hash of the blake3 crate, encode_all and
-- decode_all for zstd, from_slice for the JSON parser and to_vec for the JSON that is written,
-- from_utf8_lossy for that function of the standard library, and the file system is its operations. A
-- text is the list of its code points. A usize is unbounded; the casts to u32 of the diff wrap around. A time index key is the number of milliseconds above the least i64. A Rust panic
-- is the error `panic`. A statement of SQLite that fails changes nothing. The
-- field room of the tables counts the writes that still succeed, so that every point of failure of the
-- checkpoint repository, of the transactions and of the edits is covered. The operations of
-- Storage.Partitions, and with them Layered.Ensure and Layered.Transition, are the runs in which the
-- database takes every write; Storage.Tables has update_pointer with writes that may fail, for the
-- edits. A query fails only where the source asks for a row that is not there, so that no failure of
-- the disk or of JSON while reading is covered. JSON reads back as it was written.
--
-- The loops over lists are structural recursion. The searches of the version graph run on the fuel
-- fuel_for, the number of nodes and edges that a search can take from its queue, those of the history
-- on loop_fuel, the number of parents and one, and give none when it is used up. A HashSet is a list without duplicates, whose order plays no part.
--
-- Not modelled: the cache of diffs and the unified format, conflict markers, the merges of the layers,
-- the table of layers, backups, git synchronisation, the interfaces, the command line and the
-- configuration. The first are output; the rest builds on the parts above.
pub mod Prelude
pub mod Core
pub mod Engine
pub mod Checkpoint
pub mod Storage
pub mod Layered
pub mod Tests
