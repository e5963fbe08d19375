-- ===== src/Core/Deltas.antt =====
-- `Delta` of src/core/delta.rs and `SourceType` of src/core/types.rs. `to_vec` stands for the JSON that serde_json writes for
-- the file, the diff and the source of a delta.
use layertwine.Prelude.{ℕ, Text}
use layertwine.Core.Ids.{Bytes}
use layertwine.Core.LineDiff.{LineDiff}
use layertwine.Core.Snapshots.{DeltaId, FileNode}

pub data SourceType : Type 0 where
  manual : SourceType
  agent : Text → SourceType
  backup : SourceType

pub record Delta : Type 0 where
  pub id : DeltaId
  pub file : FileNode
  pub diff : LineDiff
  pub source : SourceType
  pub timestamp : ℕ

module _ (blake3 : Bytes → ℕ) (to_vec : FileNode → LineDiff → SourceType → Bytes) where
  unfoldable pub compute_id : Delta → DeltaId
  compute_id d = blake3 (to_vec d.file d.diff d.source)

  unfoldable pub delta_of : (now : ℕ) → FileNode → LineDiff → SourceType → Delta
  delta_of now file diff source =
      let d : Delta = record {
        id = 0;
        file = file;
        diff = diff;
        source = source;
        timestamp = now;
      } in
      record d { id = compute_id d }
