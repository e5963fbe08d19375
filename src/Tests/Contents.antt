-- ===== src/Tests/Contents.antt =====
-- Runs on the texts of snapshots (src/layered/transition.rs) and on the differences of checkpoints
-- (src/checkpoint/restore.rs).
use layertwine.Prelude.{
  ℕ, ◌≡◌, refl, false, not, ◌&&◌, List, [], ◌∷◌, none, codes, length, ok, contains, lookup,
}
use layertwine.Core.Ids.{Bytes}
use layertwine.Core.LineDiff.{DiffOp}
use layertwine.Core.Deltas.{Delta, SourceType}
use layertwine.Core.Partition.{SnapshotId}
use layertwine.Core.Snapshots.{Snapshot, SnapshotCompression, FileNode, from_parent}
use layertwine.Storage.Checkpoints.{Store}
use layertwine.Checkpoint.Repo.Root.{empty_store}
use layertwine.Checkpoint.Types.{Checkpoint, CheckpointDiff, metadata_of, checkpoint}
use layertwine.Checkpoint.Repo.{CheckpointRepo, new}
use layertwine.Checkpoint.Repo.History.{get_checkpoint}
use layertwine.Checkpoint.Restore.Inspect.{diff_checkpoints}
use layertwine.Checkpoint.Restore.Inspect.Differences.{diff_checkpoints_lem}
use layertwine.Layered.Contents.{reconstruct_text}
use layertwine.Layered.Contents.Repeats.{reconstruct_text-repeated}

abbrev count_bytes : Bytes → ℕ
count_bytes bytes = length bytes

abbrev from : Checkpoint
from = checkpoint count_bytes 5 (7 ∷ 8 ∷ []) [] (metadata_of (codes "a") (codes "first"))

abbrev to : Checkpoint
to = checkpoint count_bytes 6 (8 ∷ 9 ∷ []) [] (metadata_of (codes "a") (codes "second"))

abbrev repo : CheckpointRepo
repo = record (new 5 count_bytes []) { checkpoints = (1, from) ∷ (2, to) ∷ [] }

found_from : get_checkpoint repo 1 ≡ ok from
unfolding get_checkpoint lookup
found_from = refl

found_to : get_checkpoint repo 2 ≡ ok to
unfolding get_checkpoint lookup
found_to = refl

diff_checkpoints_lem_example :
    (d : CheckpointDiff) × (diff_checkpoints repo 1 2 ≡ ok d)
    × ((x : SnapshotId)
        → (contains d.added x
            ≡ (not (contains from.baseline_snapshots x) && contains to.baseline_snapshots x))
          × (contains d.removed x
              ≡ (not (contains to.baseline_snapshots x) && contains from.baseline_snapshots x)))
    × (d.modified ≡ [])
diff_checkpoints_lem_example = diff_checkpoints_lem repo 1 2 from to found_from found_to

-- The edits of the text x: a line a put before it, and taken away again.
abbrev file : FileNode
file = record { file_path = codes "a.txt"; base_hash = 4 }

abbrev edit : ℕ → (old_len new_len : ℕ) → DiffOp → Delta
edit id old_len new_len op = record {
  id = id;
  file = file;
  diff =
      record { old_start = 0; old_len = old_len; new_start = 0; new_len = new_len; ops = op ∷ [] }
      ∷ [];
  source = SourceType.manual;
  timestamp = id;
}

abbrev edits : List Delta
edits = edit 10 0 1 (DiffOp.insert 0 (codes "a" ∷ [])) ∷ edit 11 1 0 (DiffOp.delete 0 1) ∷ []

abbrev store : Store
store = record (empty_store 9) { deltas = edits; file_nodes = (file, codes "x") ∷ [] }

abbrev parent : Snapshot
parent = record {
  id = 3;
  file = file;
  deltas = 10 ∷ 11 ∷ [];
  parents = [];
  partition_type = codes "manual";
  created_at = 5;
  has_conflicts = false;
  content = none;
  source = [];
  compression = SnapshotCompression.uncompressed;
}

reconstruct_text-repeated_example :
    reconstruct_text (λ bytes. bytes) store (from_parent count_bytes 6 parent 10 (codes "manual"))
    ≡ reconstruct_text (λ bytes. bytes) store parent
reconstruct_text-repeated_example =
    reconstruct_text-repeated count_bytes (λ bytes. bytes) store 6 parent 10 (codes "manual") refl
