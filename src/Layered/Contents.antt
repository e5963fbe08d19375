-- ===== src/Layered/Contents.antt =====
-- The text of a snapshot: `reconstruct_text` and `has_parent_of_type` of src/layered/transition.rs. `from_utf8_lossy` stands for that
-- function of the standard library.
pub mod Repeats
use layertwine.Prelude.{
  ℕ, Bool, true, false, ◌||◌, List, [], ◌∷◌, Option, none, some, Text, if◌then◌else◌, Result, ok,
  err, Error, ◌>>=◌,
}
use layertwine.Core.Ids.{Bytes}
use layertwine.Core.LineDiff.{LineDiff}
use layertwine.Core.Deltas.{Delta}
use layertwine.Core.Partition.{SnapshotId}
use layertwine.Core.Snapshots.{Snapshot}
use layertwine.Core.Sources.{starts_with}
use layertwine.Engine.Apply.{apply_deltas}
use layertwine.Storage.Checkpoints.{Store, get_snapshot}
use layertwine.Storage.Contents.{get_deltas, get_file_content}

unfoldable pub diffs_of : List Delta → List LineDiff
diffs_of [] = []
diffs_of (d ∷ ds) = d.diff ∷ diffs_of ds

unfoldable pub reconstruct_text : (from_utf8_lossy : Bytes → Text) → Store → Snapshot → Result Text
reconstruct_text from_utf8_lossy store s =
    get_file_content store s.file.file_path s.file.base_hash >>= λ content.
    apply_deltas (from_utf8_lossy content) (diffs_of (get_deltas store s.deltas))

-- `text.contains(part)`.
unfoldable pub contains_text : Text → Text → Bool
contains_text [] part = starts_with [] part
contains_text (c ∷ text) part = starts_with (c ∷ text) part || contains_text text part

unfoldable pub any_parent : Store → List SnapshotId → (partition_type_prefix : Text) → Result Bool
any_parent store [] prefix = ok false
any_parent store (parent_id ∷ parents) prefix =
    let rest = any_parent store parents prefix in
    get_snapshot store parent_id >>= λ parent.
    if contains_text parent.partition_type prefix then ok true else rest

unfoldable pub has_parent_of_type : Store → Snapshot → (partition_type_prefix : Text) → Result Bool
has_parent_of_type store s prefix = any_parent store s.parents prefix
