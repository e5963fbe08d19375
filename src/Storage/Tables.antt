-- ===== src/Storage/Tables.antt =====
-- The partition tables and the other tables of one `SqliteStorage`, for the operations that write to both: `update_pointer_internal` of
-- src/storage/sqlite/partition.rs, whose two writes can each fail, so that the second may be missing.
pub mod Pointers
use layertwine.Prelude.{
  ℕ, zero, suc, [], ◌∷◌, ◌++◌, Option, none, some, Result, ok, err, Error, Action, ◌>>>=◌, ◌>>>◌,
}
use layertwine.Core.Partition.{Partition, PartitionId, SnapshotId}
use layertwine.Storage.Checkpoints.{Store}
use layertwine.Storage.Partitions.{PartitionTable, find, update}

pub record Tables : Type 0 where
  pub partitions : PartitionTable
  pub store : Store

abbrev pub changed : ℕ → Result PartitionTable → Action Tables (Unit {0})
changed room (ok partitions) t =
    (ok tt, record { partitions = partitions; store = record t.store { room = room } })
changed room (err e) t = (err e, t)

abbrev pub partition_statement_at :
    ℕ → (PartitionTable → Result PartitionTable) → Action Tables (Unit {0})
partition_statement_at zero change t = (err Error.storage, t)
partition_statement_at (suc room) change t = changed room (change t.partitions) t

-- A statement on the partition tables: like every write it needs room, and the tables may refuse it.
unfoldable pub partition_statement :
    (PartitionTable → Result PartitionTable) → Action Tables (Unit {0})
partition_statement change t = partition_statement_at t.store.room change t

unfoldable pub set_current : SnapshotId → Partition → Partition
set_current snapshot p = record p { current_snapshot = snapshot }

unfoldable pub add_history : SnapshotId → Partition → Partition
add_history snapshot p = record p { history = p.history ++ (snapshot ∷ []) }

-- The foreign key refuses a row for a partition that is not there.
abbrev pub history_row :
    Option Partition → PartitionTable → PartitionId → SnapshotId → Result PartitionTable
history_row none table id snapshot = err Error.storage
history_row (some p) table id snapshot = ok (update (add_history snapshot) table id)

-- The `UPDATE` of the pointer, then the `INSERT` of the history row.
unfoldable pub update_pointer_internal : PartitionId → SnapshotId → Action Tables (Unit {0})
update_pointer_internal id snapshot t =
    partition_statement (λ table. ok (update (set_current snapshot) table id)) t
    >>> partition_statement (λ table. history_row (find table id) table id snapshot)
