-- ===== src/Core/Snapshots/Builder.antt =====
-- `SnapshotBuilder` of src/core/snapshot.rs.
use layertwine.Prelude.{
  ℕ, Bool, false, List, [], ◌∷◌, ◌++◌, Option, none, some, Text, Result, ok, err, Error,
}
use layertwine.Core.Ids.{Bytes}
use layertwine.Core.Partition.{SnapshotId}
use layertwine.Core.Snapshots.{
  DeltaId, FileNode, SnapshotContent, SnapshotCompression, Snapshot, compute_id,
}

pub record SnapshotBuilder : Type 0 where
  pub file : Option FileNode
  pub deltas : List DeltaId
  pub parents : List SnapshotId
  pub partition_type : Text
  pub has_conflicts : Bool
  pub content : Option SnapshotContent
  pub source : Text
  pub compression : SnapshotCompression

abbrev pub new : SnapshotBuilder
new = record {
  file = none;
  deltas = [];
  parents = [];
  partition_type = [];
  has_conflicts = false;
  content = none;
  source = [];
  compression = SnapshotCompression.uncompressed;
}

abbrev pub with_file : SnapshotBuilder → FileNode → SnapshotBuilder
with_file b file = record b { file = some file }

abbrev pub add_delta : SnapshotBuilder → DeltaId → SnapshotBuilder
add_delta b delta_id = record b { deltas = b.deltas ++ (delta_id ∷ []) }

abbrev pub with_parent : SnapshotBuilder → SnapshotId → SnapshotBuilder
with_parent b parent = record b { parents = b.parents ++ (parent ∷ []) }

abbrev pub with_partition_type : SnapshotBuilder → Text → SnapshotBuilder
with_partition_type b partition_type = record b { partition_type = partition_type }

abbrev pub with_conflicts : SnapshotBuilder → Bool → SnapshotBuilder
with_conflicts b has_conflicts = record b { has_conflicts = has_conflicts }

abbrev pub with_content : SnapshotBuilder → SnapshotContent → SnapshotBuilder
with_content b content = record b { content = some content }

abbrev pub with_source : SnapshotBuilder → Text → SnapshotBuilder
with_source b source = record b { source = source }

abbrev pub with_compression : SnapshotBuilder → SnapshotCompression → SnapshotBuilder
with_compression b compression = record b { compression = compression }

module _ (blake3 : Bytes → ℕ) where
  abbrev pub build_on : (now : ℕ) → Option FileNode → SnapshotBuilder → Result Snapshot
  build_on now none b = err Error.checkpoint
  build_on now (some file) b =
      let s : Snapshot = record {
        id = 0;
        file = file;
        deltas = b.deltas;
        parents = b.parents;
        partition_type = b.partition_type;
        created_at = now;
        has_conflicts = b.has_conflicts;
        content = b.content;
        source = b.source;
        compression = b.compression;
      } in
      ok (record s { id = compute_id blake3 s })

  unfoldable pub build : (now : ℕ) → SnapshotBuilder → Result Snapshot
  build now b = build_on now b.file b
