-- ===== src/Checkpoint/Types.antt =====
-- `Checkpoint`, `CheckpointDiff` and `CheckpointBuilder` of src/checkpoint/types.rs, and `Branch` of src/checkpoint/branch.rs.
-- `now` is the reading of the clock; a time is the number of milliseconds from the least `i64`. Of the
-- `snapshot_sources` map the entries are kept, each key once.
pub mod Hashed
use layertwine.Prelude.{
  ℕ, ◌+◌, Bool, true, false, ◌&&◌, List, [], ◌∷◌, ◌++◌, Option, none, some, Text, codes, leb,
  length, if◌then◌else◌, Result, ok, err, Error,
}
use layertwine.Core.Ids.{Bytes, id_bytes, as_bytes}
use layertwine.Core.Partition.{SnapshotId}
use layertwine.Core.Snapshots.{flat_ids}
use layertwine.Checkpoint.Dag.{CheckpointId}

pub record CheckpointMetadata : Type 0 where
  pub author : Text
  pub message : Text
  pub git_anchor : Option Text

pub record Checkpoint : Type 0 where
  pub id : CheckpointId
  pub parents : List CheckpointId
  pub baseline_snapshots : List SnapshotId
  pub metadata : CheckpointMetadata
  pub created_at : ℕ
  pub snapshot_sources : List (SnapshotId × Text)

pub record Branch : Type 0 where
  pub name : Text
  pub head : CheckpointId
  pub created_at : ℕ
  pub updated_at : ℕ

unfoldable pub metadata_of : (author message : Text) → CheckpointMetadata
metadata_of author message = record { author = author; message = message; git_anchor = none }

-- `sort_by_key` on the map's entries.
unfoldable pub insert_source :
    SnapshotId → Text → List (SnapshotId × Text) → List (SnapshotId × Text)
insert_source k v [] = (k, v) ∷ []
insert_source k v ((j, w) ∷ sources) =
    let rest = insert_source k v sources in
    if leb k j then (k, v) ∷ (j, w) ∷ sources else (j, w) ∷ rest

unfoldable pub sort_sources : List (SnapshotId × Text) → List (SnapshotId × Text)
sort_sources [] = []
sort_sources ((k, v) ∷ sources) = insert_source k v (sort_sources sources)

unfoldable pub source_bytes : List (SnapshotId × Text) → Bytes
source_bytes [] = []
source_bytes ((k, v) ∷ sources) = id_bytes k ++ (as_bytes v ++ source_bytes sources)

-- What `compute_id` hands to the hasher, in its order.
unfoldable pub hashed : Checkpoint → Bytes
hashed cp =
    flat_ids cp.parents
    ++ (flat_ids cp.baseline_snapshots
        ++ (as_bytes cp.metadata.author
            ++ (as_bytes cp.metadata.message ++ source_bytes (sort_sources cp.snapshot_sources))))

module _ (blake3 : Bytes → ℕ) where
  unfoldable pub compute_id : Checkpoint → CheckpointId
  compute_id cp = blake3 (hashed cp)

  unfoldable pub checkpoint :
      (now : ℕ)
      → (baseline_snapshots : List SnapshotId) (parents : List CheckpointId)
        (metadata : CheckpointMetadata)
      → Checkpoint
  checkpoint now baseline_snapshots parents metadata =
      let cp : Checkpoint = record {
        id = 0;
        parents = parents;
        baseline_snapshots = baseline_snapshots;
        metadata = metadata;
        created_at = now;
        snapshot_sources = [];
      } in
      record cp { id = compute_id cp }

unfoldable pub branch : (now : ℕ) → Text → CheckpointId → Branch
branch now name head = record { name = name; head = head; created_at = now; updated_at = now }

unfoldable pub set_head : (now : ℕ) → Branch → CheckpointId → Branch
set_head now b id = record b { head = id; updated_at = now }

pub record CheckpointDiff : Type 0 where
  pub from_id : CheckpointId
  pub to_id : CheckpointId
  pub added : List SnapshotId
  pub removed : List SnapshotId
  pub modified : List SnapshotId

abbrev pub is_empty_list : List SnapshotId → Bool
is_empty_list [] = true
is_empty_list (s ∷ ss) = false

unfoldable pub is_empty : CheckpointDiff → Bool
is_empty d = is_empty_list d.added && (is_empty_list d.removed && is_empty_list d.modified)

unfoldable pub total_changes : CheckpointDiff → ℕ
total_changes d = length d.added + length d.removed + length d.modified

pub record CheckpointBuilder : Type 0 where
  pub parents : List CheckpointId
  pub baseline_snapshots : List SnapshotId
  pub author : Text
  pub message : Text
  pub git_anchor : Option Text

abbrev pub new_builder : CheckpointBuilder
new_builder = record {
  parents = [];
  baseline_snapshots = [];
  author = codes "unknown";
  message = [];
  git_anchor = none;
}

abbrev pub add_parent : CheckpointBuilder → CheckpointId → CheckpointBuilder
add_parent b parent_id = record b { parents = b.parents ++ (parent_id ∷ []) }

abbrev pub add_baseline_snapshot : CheckpointBuilder → SnapshotId → CheckpointBuilder
add_baseline_snapshot b snapshot_id = record b {
  baseline_snapshots = b.baseline_snapshots ++ (snapshot_id ∷ []);
}

module _ (blake3 : Bytes → ℕ) where
  unfoldable pub build : (now : ℕ) → CheckpointBuilder → Option Checkpoint
  build now b =
      if is_empty_list b.baseline_snapshots
      then none
      else some (
          checkpoint blake3 now b.baseline_snapshots b.parents
            (record { author = b.author; message = b.message; git_anchor = b.git_anchor }))
