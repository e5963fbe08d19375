-- ===== src/Layered/Edits.antt =====
-- `apply_manual_edit` of src/layered/manual.rs and `apply_agent_edit` of src/layered/agent.rs, on the partitions and the other tables of one
-- storage. `from_utf8_lossy` and `to_vec` stand for those functions of the standard library and of serde_json,
-- `grouped_ops` for the crate similar, `blake3` for the blake3 crate and `now` for the clock, `uuid_v5` for `Uuid::new_v5` of the uuid crate.
pub mod Shown
pub mod Applied
use layertwine.Prelude.{
  ℕ, Bool, true, false, List, [], ◌∷◌, Text, codes, if◌then◌else◌, Result, ok, err, Error, Action,
  ◌>>>=◌, ◌>>>◌,
}
use layertwine.Core.Ids.{Bytes, as_bytes}
use layertwine.Core.LineDiff.{LineDiff, is_empty}
use layertwine.Core.Deltas.{Delta, SourceType, delta_of}
use layertwine.Core.Names.{PartitionType, name}
use layertwine.Core.Partition.{Partition, PartitionId, SnapshotId}
use layertwine.Core.Snapshots.{Snapshot, FileNode, file_node, from_parent}
use layertwine.Engine.Diff.{TextOp, diff_to_line_diff}
use layertwine.Storage.Checkpoints.{Store, Write, get_snapshot, store_snapshot}
use layertwine.Storage.Contents.{store_delta, store_file_node}
use layertwine.Storage.Partitions.{PartitionTable, get_partition}
use layertwine.Storage.Tables.{Tables, update_pointer_internal}
use layertwine.Layered.Contents.{reconstruct_text}
use layertwine.Layered.Ensure.{manual_partition_id, agent_partition_id}

abbrev pub partition_or_not_found : Result Partition → Result Partition
partition_or_not_found (ok p) = ok p
partition_or_not_found (err e) = err Error.not_found

abbrev pub with_store : PartitionTable → Result (Unit {0}) × Store → Result (Unit {0}) × Tables
with_store partitions (r, store) = (r, record { partitions = partitions; store = store })

module _ (from_utf8_lossy : Bytes → Text) (grouped_ops : Text → Text → List (List TextOp))
    (to_vec : FileNode → LineDiff → SourceType → Bytes) (blake3 : Bytes → ℕ) (now : ℕ) where
  -- The file, the delta and the snapshot of an edit.
  abbrev pub edited_file : (file_path old : Text) → FileNode
  edited_file file_path old = file_node blake3 file_path (as_bytes old)

  abbrev pub edit_delta : (file_path old : Text) → LineDiff → SourceType → Delta
  edit_delta file_path old diff source =
      delta_of blake3 to_vec now (edited_file file_path old) diff source

  -- The writes of an edit, in their order.
  unfoldable pub write_edit : (file_path old : Text) → Delta → Snapshot → Write
  write_edit file_path old delta snapshot store =
      store_file_node (edited_file file_path old) (as_bytes old) store
      >>> store_delta delta
      >>> store_snapshot snapshot

  unfoldable pub record_edit :
      PartitionId → (file_path old : Text) → Delta → Snapshot → Action Tables SnapshotId
  record_edit pid file_path old delta snapshot t =
      with_store t.partitions (write_edit file_path old delta snapshot t.store) >>> λ t.
      update_pointer_internal pid snapshot.id t >>> λ t. (ok snapshot.id, t)

  -- The steps that both edits have in common.
  unfoldable pub apply_edit :
      PartitionId
      → SourceType
      → PartitionType
      → (file_path new_content : Text) → Action Tables SnapshotId
  apply_edit pid source partition_type file_path new_content t =
      (partition_or_not_found (get_partition t.partitions pid), t) >>>= λ p t.
      (get_snapshot t.store p.current_snapshot, t) >>>= λ current t.
      (reconstruct_text from_utf8_lossy t.store current, t) >>>= λ old t.
      (diff_to_line_diff grouped_ops old new_content, t) >>>= λ diff t.
      if is_empty diff
      then (ok p.current_snapshot, t)
      else record_edit pid file_path old (edit_delta file_path old diff source)
          (from_parent blake3 now current (edit_delta file_path old diff source).id
            (name partition_type))
          t

  unfoldable pub apply_manual_edit : (file_path new_content : Text) → Action Tables SnapshotId
  apply_manual_edit file_path new_content =
      apply_edit manual_partition_id SourceType.manual PartitionType.manual file_path new_content

  unfoldable pub apply_agent_edit :
      (uuid_v5 : ℕ → Text → PartitionId) (agent_id file_path new_content : Text)
      → Action Tables SnapshotId
  apply_agent_edit uuid_v5 agent_id file_path new_content =
      apply_edit (agent_partition_id uuid_v5 agent_id) (SourceType.agent agent_id)
        (PartitionType.agent agent_id) file_path new_content
