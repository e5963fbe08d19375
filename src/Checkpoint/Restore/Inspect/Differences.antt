-- ===== src/Checkpoint/Restore/Inspect/Differences.antt =====
-- What `diff_checkpoints` of src/checkpoint/restore.rs finds.
use layertwine.Prelude.{
  ◌≡◌, refl, ap, sym, ◌∙◌, Bool, true, false, not, ◌&&◌, List, [], ◌∷◌, Option, none, some,
  text_eq_refl, ◌==◌, ==_iff, arith, Bool-cases, inl, inr, ok, contains,
}
use layertwine.Core.Partition.{SnapshotId}
use layertwine.Core.Snapshots.{SnapshotContent}
use layertwine.Checkpoint.Dag.{CheckpointId}
use layertwine.Checkpoint.Types.{Checkpoint, CheckpointDiff}
use layertwine.Checkpoint.Repo.{CheckpointRepo}
use layertwine.Checkpoint.Repo.History.{get_checkpoint, get_snapshot_by_id}
use layertwine.Checkpoint.Restore.Inspect.{
  set_of, filter_ids, same_content, content_of, is_modified, diff_checkpoints,
}

contains-set_of :
    (ids : List SnapshotId) (x : SnapshotId) → contains (set_of ids) x ≡ contains ids x
unfolding set_of
contains-set_of [] x = refl
contains-set_of (id ∷ ids) x =
    let ih = contains-set_of ids x in
    elim (Bool-cases (contains (set_of ids) id)) [
      | inl there ↦ rw there (elim (Bool-cases (id == x)) [
        | inl same ↦
            let e : id ≡ x = ground arith in
            let t : contains (set_of ids) x ≡ true = rw (← e) there in ground arith
        | inr other ↦ rw other ih
      ])
      | inr new ↦ rw (new, ih) refl
    ]

contains-filter_ids :
    (test : SnapshotId → Bool) (ids : List SnapshotId) (x : SnapshotId)
    → contains (filter_ids test ids) x ≡ (test x && contains ids x)
unfolding filter_ids
contains-filter_ids test [] x = ground arith
contains-filter_ids test (id ∷ ids) x =
    let ih = contains-filter_ids test ids x in
    elim (Bool-cases (id == x)) [
      | inl same ↦
          let e : test id ≡ test x = ap test ((==_iff id x).0 same) in
          elim (Bool-cases (test id)) [
            | inl kept ↦ let k : test x ≡ true = sym e ∙ kept in rw (kept, same, k) refl
            | inr dropped ↦
                let k : test x ≡ false = sym e ∙ dropped in rw (dropped, k) (ih ∙ rw k refl)
          ]
      | inr other ↦ elim (Bool-cases (test id)) [
        | inl kept ↦ rw (kept, other) ih
        | inr dropped ↦ rw (dropped, other) ih
      ]
    ]

same_content_refl : (c : Option SnapshotContent) → same_content c c ≡ true
unfolding same_content
same_content_refl none = refl
same_content_refl (some (SnapshotContent.file_content bytes)) = text_eq_refl bytes
same_content_refl (some (SnapshotContent.json_metadata value)) = text_eq_refl value
same_content_refl (some (SnapshotContent.structured bytes)) = text_eq_refl bytes

none_modified :
    (repo : CheckpointRepo) (ids : List SnapshotId) → filter_ids (is_modified repo) ids ≡ []
unfolding filter_ids is_modified
none_modified repo [] = refl
none_modified repo (id ∷ ids) =
    rw (same_content_refl (content_of (get_snapshot_by_id repo id))) (none_modified repo ids)

-- The difference of two checkpoints of the repository: what is added are the snapshots of the second that the first does not
-- have, what is removed those of the first that the second does not have, and no snapshot is ever reported as
-- modified, since both contents are read under the same id.
pub diff_checkpoints_lem :
    (repo : CheckpointRepo) (from_id to_id : CheckpointId) (from_cp to_cp : Checkpoint)
    → get_checkpoint repo from_id ≡ ok from_cp
    → get_checkpoint repo to_id ≡ ok to_cp
    → (d : CheckpointDiff) × (diff_checkpoints repo from_id to_id ≡ ok d)
      × ((x : SnapshotId)
          → (contains d.added x ≡ (
              not (contains from_cp.baseline_snapshots x) && contains to_cp.baseline_snapshots x))
            × (contains d.removed x ≡ (
                not (contains to_cp.baseline_snapshots x)
                && contains from_cp.baseline_snapshots x)))
      × (d.modified ≡ [])
unfolding diff_checkpoints
diff_checkpoints_lem repo from_id to_id from_cp to_cp found found' =
    let from_set = set_of from_cp.baseline_snapshots in
    let to_set = set_of to_cp.baseline_snapshots in
    let d : CheckpointDiff = record {
      from_id = from_id;
      to_id = to_id;
      added = filter_ids (λ id. not (contains from_set id)) to_set;
      removed = filter_ids (λ id. not (contains to_set id)) from_set;
      modified = filter_ids (is_modified repo) (filter_ids (contains to_set) from_set);
    } in
    (
      d,
      rw (found, found') refl,
      λ x. (
        contains-filter_ids (λ id. not (contains from_set id)) to_set x
            ∙ rw
                (
                  contains-set_of from_cp.baseline_snapshots x,
                  contains-set_of to_cp.baseline_snapshots x,
                )
                refl,
        contains-filter_ids (λ id. not (contains to_set id)) from_set x
            ∙ rw
                (
                  contains-set_of from_cp.baseline_snapshots x,
                  contains-set_of to_cp.baseline_snapshots x,
                )
                refl,
      ),
      none_modified repo (filter_ids (contains to_set) from_set),
    )
