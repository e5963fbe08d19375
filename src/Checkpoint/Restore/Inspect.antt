-- ===== src/Checkpoint/Restore/Inspect.antt =====
-- The snapshots of a checkpoint, the differences of two, and the integrity check of src/checkpoint/restore.rs. `blake3` is the hash of
-- the blake3 crate.
pub mod Differences
use layertwine.Prelude.{
  ℕ, ◌≡◌, Bool, true, false, not, ◌&&◌, ◌||◌, List, [], ◌∷◌, ◌++◌, Option, none, some, Text, codes,
  text_eq, get_last?, length, leb, ◌==◌, if◌then◌else◌, Result, ok, err, Error, ◌>>=◌, Action,
  ◌>>>=◌, ◌>>>◌, lookup, get_or_default, contains,
}
use layertwine.Core.Ids.{Bytes, as_bytes}
use layertwine.Core.Names.{strip_prefix}
use layertwine.Core.Deltas.{Delta}
use layertwine.Core.Partition.{SnapshotId}
use layertwine.Core.Snapshots
use layertwine.Core.Snapshots.{Snapshot, SnapshotContent, to_bytes, content_type}
use layertwine.Core.Sources.{matches_glob}
use layertwine.Checkpoint.Dag.{CheckpointId}
use layertwine.Checkpoint.TimeIndex
use layertwine.Checkpoint.TimeIndex.{query_range, find_nearest}
use layertwine.Checkpoint.Types.{Checkpoint, CheckpointDiff}
use layertwine.Storage.Checkpoints.{Store}
use layertwine.Storage.Contents.{get_deltas}
use layertwine.Layered.Contents.{reconstruct_text}
use layertwine.Checkpoint.Repo.{CheckpointRepo}
use layertwine.Checkpoint.Repo.History.{get_checkpoint, get_ancestry_chain, get_snapshot_by_id}

abbrev pub content_label : Option SnapshotContent → Text × ℕ
content_label none = (codes "unknown", 0)
content_label (some c) = (content_type c, length (to_bytes c))

abbrev pub snapshot_label : Result Snapshot → Text × ℕ
snapshot_label (err e) = (codes "unknown", 0)
snapshot_label (ok s) = content_label s.content

unfoldable pub label_all :
    CheckpointRepo
    → List (SnapshotId × Text)
    → List SnapshotId
    → List (SnapshotId × (Text × (Text × ℕ)))
label_all repo sources [] = []
label_all repo sources (id ∷ ids) =
    (id, (get_or_default [] (lookup id sources), snapshot_label (get_snapshot_by_id repo id)))
    ∷ label_all repo sources ids

unfoldable pub list_snapshots :
    CheckpointRepo → CheckpointId → Result (List (SnapshotId × (Text × (Text × ℕ))))
list_snapshots repo id =
    get_checkpoint repo id >>= λ cp. ok (label_all repo cp.snapshot_sources cp.baseline_snapshots)

-- `collect` into a set.
unfoldable pub set_of : List SnapshotId → List SnapshotId
set_of [] = []
set_of (id ∷ ids) = let rest = set_of ids in if contains rest id then rest else id ∷ rest

-- The ids that pass the test.
unfoldable pub filter_ids : (SnapshotId → Bool) → List SnapshotId → List SnapshotId
filter_ids test [] = []
filter_ids test (id ∷ ids) = let rest = filter_ids test ids in if test id then id ∷ rest else rest

unfoldable pub same_content : Option SnapshotContent → Option SnapshotContent → Bool
same_content none none = true
same_content (some (SnapshotContent.file_content a)) (some (SnapshotContent.file_content b)) =
    text_eq a b
same_content (some (SnapshotContent.json_metadata a)) (some (SnapshotContent.json_metadata b)) =
    text_eq a b
same_content (some (SnapshotContent.structured a)) (some (SnapshotContent.structured b)) =
    text_eq a b
same_content a b = false

abbrev pub content_of : Result Snapshot → Option SnapshotContent
content_of (err e) = none
content_of (ok s) = s.content

-- Both contents are read under the one id.
unfoldable pub is_modified : CheckpointRepo → SnapshotId → Bool
is_modified repo id = not (
    same_content (content_of (get_snapshot_by_id repo id))
      (content_of (get_snapshot_by_id repo id)))

unfoldable pub diff_checkpoints :
    CheckpointRepo → (from_id to_id : CheckpointId) → Result CheckpointDiff
diff_checkpoints repo from_id to_id = get_checkpoint repo from_id >>= λ from_cp.
    get_checkpoint repo to_id >>= λ to_cp.
    let from_set = set_of from_cp.baseline_snapshots in
    let to_set = set_of to_cp.baseline_snapshots in
    ok (record {
      from_id = from_id;
      to_id = to_id;
      added = filter_ids (λ id. not (contains from_set id)) to_set;
      removed = filter_ids (λ id. not (contains to_set id)) from_set;
      modified = filter_ids (is_modified repo) (filter_ids (contains to_set) from_set);
    })

pub data IntegrityIssue : Type 0 where
  mismatched_id missing_source not_stored : SnapshotId → IntegrityIssue

module _ (blake3 : Bytes → ℕ) where
  abbrev pub issues_of :
      Result Snapshot → List (SnapshotId × Text) → SnapshotId → List IntegrityIssue
  issues_of (err e) sources id = IntegrityIssue.not_stored id ∷ []
  issues_of (ok s) sources id =
      (if Snapshots.compute_id blake3 s == id then [] else IntegrityIssue.mismatched_id id ∷ [])
      ++ elim (lookup id sources) [
        | none ↦ IntegrityIssue.missing_source id ∷ []
        | some source ↦ []
      ]

  unfoldable pub all_issues :
      CheckpointRepo → List (SnapshotId × Text) → List SnapshotId → List IntegrityIssue
  all_issues repo sources [] = []
  all_issues repo sources (id ∷ ids) =
      issues_of (get_snapshot_by_id repo id) sources id ++ all_issues repo sources ids

  unfoldable pub validate_integrity : CheckpointRepo → CheckpointId → Result (List IntegrityIssue)
  validate_integrity repo id = get_checkpoint repo id >>= λ cp.
      ok (all_issues repo cp.snapshot_sources cp.baseline_snapshots)
