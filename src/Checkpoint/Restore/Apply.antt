-- ===== src/Checkpoint/Restore/Apply.antt =====
-- `apply_restore` of src/checkpoint/restore.rs. The file system is a parameter, with its state, its two operations and the
-- parent of a path.
use layertwine.Prelude.{
  Bool, true, false, List, [], ◌∷◌, ◌++◌, Option, none, some, Text, codes, Result, ok, err, Error,
  Action, ◌>>>=◌, ◌>>>◌,
}
use layertwine.Core.Ids.{Bytes}
use layertwine.Core.Names.{strip_prefix}
use layertwine.Core.Partition.{SnapshotId}
use layertwine.Core.Snapshots.{SnapshotContent, to_bytes}
use layertwine.Checkpoint.Dag.{CheckpointId}
use layertwine.Checkpoint.Restore.{RestoreResponse, any_match}

pub record RestoreApplyResult : Type 0 where
  pub checkpoint_id : CheckpointId
  pub files_written : List Text

module _ {F : Type 0} (parent : Text → Option Text) (create_dir_all : Text → Action F (Unit {0}))
    (write : Text → Bytes → Action F (Unit {0})) where
  -- An error of the file system becomes a general error.
  abbrev pub general : Result (Unit {0}) × F → Result (Unit {0}) × F
  general (ok t, f) = (ok tt, f)
  general (err e, f) = (err Error.general, f)

  abbrev pub make_parent : Option Text → Action F (Unit {0})
  make_parent none f = (ok tt, f)
  make_parent (some []) f = (ok tt, f)
  make_parent (some (c ∷ dir)) f = general (create_dir_all (c ∷ dir) f)

  abbrev pub passes : Option (List Text) → Text → Bool
  passes none source = true
  passes (some filters) source = any_match source filters

  -- The path of a source that passes the filter and is a file.
  abbrev pub path_of : Bool → Text → Option Text
  path_of true source = strip_prefix source (codes "file://")
  path_of false source = none

  abbrev pub write_one : Option Text → SnapshotContent → Action F (List Text)
  write_one none content f = (ok [], f)
  write_one (some path) content f = make_parent (parent path) f >>> λ f.
      general (write path (to_bytes content) f) >>> λ f. (ok (path ∷ []), f)

  unfoldable pub write_all :
      Option (List Text) → List (SnapshotId × (SnapshotContent × Text)) → Action F (List Text)
  write_all filter [] f = (ok [], f)
  write_all filter ((id, (content, source)) ∷ snapshots) f =
      let rest = write_all filter snapshots in
      write_one (path_of (passes filter source) source) content f >>>= λ one f.
      rest f >>>= λ others f. (ok (one ++ others), f)

  unfoldable pub apply_restore : RestoreResponse → Option (List Text) → Action F RestoreApplyResult
  apply_restore response filter f = write_all filter response.snapshots f >>>= λ files f.
      (ok (record { checkpoint_id = response.checkpoint.id; files_written = files }), f)
