-- ===== src/Tests/Edits.antt =====
-- A second manual edit of a file (src/layered/manual.rs), with the number of bytes for a hash.
use layertwine.Prelude.{
  ℕ, ◌+◌, ◌^◌, ◌<◌, ◌≡◌, ◌≢◌, refl, ap, true, false, text_eq, [], ◌∷◌, ◌++◌, map, none, some, Text,
  codes, length, ok, arith, contains,
}
use layertwine.Core.Ids.{Bytes, as_bytes, utf8_char, be_bytes}
use layertwine.Core.LineDiff.{DiffOp, LineDiff}
use layertwine.Core.Deltas.{Delta, SourceType, delta_of, compute_id}
use layertwine.Core.Names.{PartitionType, name}
use layertwine.Core.Partition.{Partition}
use layertwine.Core.Snapshots
use layertwine.Core.Snapshots.{Snapshot, SnapshotCompression, FileNode, file_node, from_parent}
use layertwine.Engine.Lines.{newline, lines, join, push_char, slice, ends_with_newline}
use layertwine.Engine.Lines.Join.{HasNoCr}
use layertwine.Engine.Apply.{
  apply_ops, apply_hunk, apply_hunks, apply_line_diff, apply_diffs, apply_deltas, restore_newline,
}
use layertwine.Storage.Checkpoints.{get_snapshot, find_snapshot}
use layertwine.Storage.Contents.{
  find_delta, without_delta, take_deltas, get_deltas, find_file, get_file_content,
}
use layertwine.Storage.Partitions.{find, pointed}
use layertwine.Storage.Tables.{Tables}
use layertwine.Checkpoint.Repo.Root.{empty_store}
use layertwine.Layered.Contents.{diffs_of, reconstruct_text}
use layertwine.Layered.Ensure.{started, manual_partition_id}
use layertwine.Layered.Edits.{edit_delta, apply_edit}
use layertwine.Layered.Edits.Shown.{Shows}
use layertwine.Layered.Edits.Applied.{apply_edit-Shows}
use layertwine.Tests.Samples.{
  base_text, our_text, sample_ops, our-IsScript, our_diff, our_diff_made,
}

abbrev read : Bytes → Text
read bytes = bytes

-- What is hashed of a delta, and the number of bytes for a hash.
abbrev path_and_size : FileNode → LineDiff → SourceType → Bytes
path_and_size file diff source = file.file_path ++ map (λ hunk. hunk.new_len) diff

abbrev count_bytes : Bytes → ℕ
count_bytes bytes = length bytes

abbrev base_file : FileNode
base_file = record { file_path = codes "a.txt"; base_hash = 4 }

-- The text b has been given a line a before it.
abbrev first_text : Text
first_text = 98 ∷ 10 ∷ []

abbrev first_delta : Delta
first_delta = record {
  id = 10;
  file = base_file;
  diff =
      record {
        old_start = 1;
        old_len = 1;
        new_start = 1;
        new_len = 2;
        ops = DiffOp.insert 1 ((97 ∷ []) ∷ []) ∷ DiffOp.equal 1 ∷ [];
      }
      ∷ [];
  source = SourceType.manual;
  timestamp = 4;
}

abbrev first : Snapshot
first = record {
  id = 3;
  file = base_file;
  deltas = 10 ∷ [];
  parents = 2 ∷ [];
  partition_type = codes "manual";
  created_at = 5;
  has_conflicts = false;
  content = none;
  source = [];
  compression = SnapshotCompression.uncompressed;
}

abbrev manual_partition : Partition
manual_partition = started manual_partition_id (codes "manual_edit") PartitionType.manual 3

abbrev tables : Tables
tables = record {
  partitions = manual_partition ∷ [];
  store = record (empty_store 9) {
    snapshots = first ∷ [];
    deltas = first_delta ∷ [];
    file_nodes = (base_file, first_text) ∷ [];
  };
}

there : find tables.partitions manual_partition_id ≡ some manual_partition
unfolding find
there = refl

here : get_snapshot tables.store 3 ≡ ok first
unfolding get_snapshot find_snapshot
here = refl

first-Shows : Shows read tables.store first base_text
unfolding find_file get_deltas take_deltas find_delta without_delta diffs_of apply_diffs
    apply_line_diff apply_hunks apply_hunk apply_ops lines push_char slice reconstruct_text
    get_file_content apply_deltas ends_with_newline restore_newline join
first-Shows = record {
  base = first_text;
  found = refl;
  applied = refl;
  same_end = refl;
  shown = refl;
}

small : length (lines base_text) + 1 < 2 ^ 32
unfolding lines push_char
small = omega arith

our_no_cr : HasNoCr our_text
our_no_cr = (omega arith, (omega arith, (omega arith, (omega arith, tt))))

our_not_newline : our_text ≢ newline ∷ []
our_not_newline h = absurd (cc)

both_end : ends_with_newline base_text ≡ ends_with_newline our_text
unfolding ends_with_newline
both_end = refl

differ : lines base_text ≢ lines our_text
unfolding lines push_char join
differ h =
    let e : true ≡ false = ap (λ ls. text_eq (join ls) (join (lines base_text))) h in absurd (cc)

no_delta :
    find_delta tables.store.deltas
      (edit_delta read sample_ops path_and_size count_bytes 6
        (codes "a.txt")
        base_text
        our_diff
        SourceType.manual).id
    ≡ none
unfolding find_delta delta_of compute_id file_node
no_delta = refl

absent :
    contains first.deltas
      (edit_delta read sample_ops path_and_size count_bytes 6
        (codes "a.txt")
        base_text
        our_diff
        SourceType.manual).id
    ≡ false
unfolding delta_of compute_id file_node
absent = refl

no_snapshot :
    find_snapshot tables.store.snapshots
      (from_parent count_bytes 6 first
        (edit_delta read sample_ops path_and_size count_bytes 6
          (codes "a.txt")
          base_text
          our_diff
          SourceType.manual).id
        (name PartitionType.manual)).id
    ≡ none
unfolding find_snapshot delta_of compute_id from_parent Snapshots.compute_id Snapshots.hashed
    file_node as_bytes utf8_char be_bytes Snapshots.flat_ids name
no_snapshot = refl

apply_edit-Shows_example :
    (after : Tables) × (snap : Snapshot) × (apply_edit read sample_ops path_and_size count_bytes 6
        manual_partition_id SourceType.manual PartitionType.manual
        (codes "a.txt")
        our_text
        tables
      ≡ (ok snap.id, after))
    × (get_snapshot after.store snap.id ≡ ok snap)
    × (find after.partitions manual_partition_id ≡ some (pointed snap.id manual_partition))
    × Shows read after.store snap our_text
apply_edit-Shows_example =
    apply_edit-Shows read sample_ops path_and_size count_bytes 6 manual_partition_id
      SourceType.manual PartitionType.manual (codes "a.txt") base_text our_text tables
      manual_partition first our_diff 4 there here first-Shows our-IsScript small our_no_cr
      our_not_newline both_end differ our_diff_made no_delta absent no_snapshot refl
