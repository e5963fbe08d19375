-- ===== src/Layered/Edits/Applied.antt =====
-- `apply_manual_edit` (src/layered/manual.rs) and `apply_agent_edit` (src/layered/agent.rs) on texts that differ.
use layertwine.Prelude.{
  ℕ, suc, ◌+◌, ◌^◌, ◌<◌, ◌≡◌, ◌≢◌, refl, subst, ◌∙◌, arith, false, List, [], ◌∷◌, ◌++◌, none, some,
  Text, length, ◌==◌, ==_refl, Bool-cases, inl, inr, ok, contains,
}
use layertwine.Core.Ids.{Bytes, as_bytes}
use layertwine.Core.LineDiff.{LineDiff, is_empty}
use layertwine.Core.Deltas.{Delta, SourceType, delta_of}
use layertwine.Core.Names.{PartitionType, name}
use layertwine.Core.Partition.{Partition, PartitionId}
use layertwine.Core.Snapshots.{Snapshot, FileNode, file_node, from_parent}
use layertwine.Engine.Lines.{newline, lines, ends_with_newline}
use layertwine.Engine.Lines.Join.{HasNoCr}
use layertwine.Engine.Apply.{apply_line_diff}
use layertwine.Engine.Diff.{TextOp, diff_to_line_diff}
use layertwine.Engine.Diff.Script.{IsScript}
use layertwine.Engine.Diff.RoundTrip.{apply-diff, apply-rest}
use layertwine.Storage.Checkpoints.{Store, statement, get_snapshot, find_snapshot, store_snapshot}
use layertwine.Storage.Contents.{
  find_delta, store_delta, find_file, file_or_ignore, store_file_node,
}
use layertwine.Storage.Partitions.{find, pointed, get_partition}
use layertwine.Storage.Partitions.Laws.{update_pointer_lem}
use layertwine.Storage.Tables.{Tables}
use layertwine.Storage.Tables.Pointers.{update_pointer_internal_lem}
use layertwine.Layered.Edits.{edit_delta, write_edit, record_edit, apply_edit}
use layertwine.Layered.Edits.Shown.{Shows, Shows-append}

find_snapshot-new :
    (rows : List Snapshot) (s : Snapshot)
    → find_snapshot rows s.id ≡ none
    → find_snapshot (rows ++ (s ∷ [])) s.id ≡ some s
unfolding find_snapshot
find_snapshot-new [] s h = rw (==_refl s.id) refl
find_snapshot-new (e ∷ rows) s h = elim (Bool-cases (e.id == s.id)) [
  | inl same ↦ absurd (let e = rw same at h in cc)
  | inr other ↦ rw other (find_snapshot-new rows s (rw other at h))
]

not_empty :
    (old new : Text) (diff : LineDiff)
    → lines old ≢ lines new
    → apply_line_diff (lines old) diff ≡ ok (lines new)
    → is_empty diff ≡ false
unfolding is_empty apply_line_diff
not_empty old new [] differ step =
    let rest = apply-rest (lines old) [] (lines old) [] 0 refl refl in absurd (differ (cc))
not_empty old new (h ∷ diff) differ step = refl

module _ (from_utf8_lossy : Bytes → Text) (grouped_ops : Text → Text → List (List TextOp))
    (to_vec : FileNode → LineDiff → SourceType → Bytes) (blake3 : Bytes → ℕ) (now : ℕ) where
  -- The tables of contents after the writes of an edit.
  abbrev written : ℕ → (file_path old : Text) → Delta → Snapshot → Store → Store
  written r file_path old d s store = record store {
    file_nodes =
        file_or_ignore
          (find_file store.file_nodes (file_node blake3 file_path (as_bytes old)).file_path
            (file_node blake3 file_path (as_bytes old)).base_hash)
          store.file_nodes (file_node blake3 file_path (as_bytes old)) (as_bytes old);
    deltas = store.deltas ++ (d ∷ []);
    snapshots = store.snapshots ++ (s ∷ []);
    room = r;
  }

  write_edit_lem :
      (r : ℕ) (file_path old : Text) (d : Delta) (s : Snapshot) (store : Store)
      → store.room ≡ suc (suc (suc r))
      → find_delta store.deltas d.id ≡ none
      → find_snapshot store.snapshots s.id ≡ none
      → write_edit from_utf8_lossy grouped_ops to_vec blake3 now file_path old d s store
        ≡ (ok tt, written r file_path old d s store)
  unfolding write_edit store_file_node store_delta store_snapshot statement
  write_edit_lem r file_path old d s store room fresh new = rw (room, fresh, new) refl

  module _ (pid : PartitionId) (source : SourceType) (partition_type : PartitionType)
      (file_path old new : Text) (t : Tables) (p : Partition) (current : Snapshot) (diff : LineDiff)
      (r : ℕ) where
    -- The delta of an edit, and its snapshot.
    abbrev pub delta : Delta
    delta = edit_delta from_utf8_lossy grouped_ops to_vec blake3 now file_path old diff source

    abbrev pub snapshot : Snapshot
    snapshot = from_parent blake3 now current delta.id (name partition_type)

    -- The diff that is produced is the one that was given, and it has some hunk.
    produced :
        IsScript (grouped_ops old new) 0 0 (lines old) (lines new)
        → length (lines old) + 1 < 2 ^ 32
        → diff_to_line_diff grouped_ops old new ≡ ok diff
        → apply_line_diff (lines old) diff ≡ ok (lines new)
    produced script small made =
        let (diff', made', step) = apply-diff grouped_ops old new script small in
        let same : diff' ≡ diff = cc in
        subst (λ d. apply_line_diff (lines old) d ≡ ok (lines new)) same step

    -- An edit in a partition whose snapshot shows a text, to a text with other lines, succeeds: its snapshot is
    -- stored, the pointer of the partition is moved to it, and it shows the new text. The conditions on the crate's operations
    -- and on the size are those of the diff; the new text has no carriage return, is not the one newline, and ends with
    -- a newline exactly if the old one does; the delta made of the diff that is produced has an id that is neither stored nor in the chain of the
    -- snapshot that is edited, the id of the new snapshot is not stored, and the storage takes five writes.
    pub apply_edit-Shows :
        find t.partitions pid ≡ some p
        → get_snapshot t.store p.current_snapshot ≡ ok current
        → Shows from_utf8_lossy t.store current old
        → IsScript (grouped_ops old new) 0 0 (lines old) (lines new)
        → length (lines old) + 1 < 2 ^ 32
        → HasNoCr new
        → new ≢ newline ∷ []
        → ends_with_newline old ≡ ends_with_newline new
        → lines old ≢ lines new
        → diff_to_line_diff grouped_ops old new ≡ ok diff
        → find_delta t.store.deltas delta.id ≡ none
        → contains current.deltas delta.id ≡ false
        → find_snapshot t.store.snapshots snapshot.id ≡ none
        → t.store.room ≡ 5 + r
        → (after : Tables) × (snap : Snapshot) × (apply_edit from_utf8_lossy grouped_ops to_vec
              blake3 now pid source partition_type file_path new t
            ≡ (ok snap.id, after))
          × (get_snapshot after.store snap.id ≡ ok snap)
          × (find after.partitions pid ≡ some (pointed snap.id p))
          × Shows from_utf8_lossy after.store snap new
    unfolding apply_edit record_edit get_partition get_snapshot from_parent delta_of
    apply_edit-Shows there here shows script small no_cr n ends differ made no_delta absent
          no_snapshot room =
        let step = produced script small made in
        let writes =
          write_edit_lem (suc (suc r)) file_path old delta snapshot t.store (room ∙ omega arith)
            no_delta no_snapshot in
        let store' = written (suc (suc r)) file_path old delta snapshot t.store in
        let middle : Tables = record { partitions = t.partitions; store = store' } in
        let (partitions, moved, agrees) =
          update_pointer_internal_lem pid snapshot.id p middle r there refl in
        let (others, moved', pointed', rest) =
          update_pointer_lem t.partitions pid p snapshot.id there in
        let same : others ≡ partitions = cc in
        (
          record { partitions = partitions; store = record store' { room = r } },
          snapshot,
          rw (there, here, shows.shown, made, not_empty old new diff differ step, writes, moved)
              refl,
          rw (find_snapshot-new t.store.snapshots snapshot no_snapshot) refl,
          subst (λ table. find table pid ≡ some (pointed snapshot.id p)) same pointed',
          Shows-append from_utf8_lossy t.store (record store' { room = r }) current snapshot old new
              delta (file_node blake3 file_path (as_bytes old)) (as_bytes old) shows refl refl refl
              refl no_delta absent step ends no_cr n,
        )
