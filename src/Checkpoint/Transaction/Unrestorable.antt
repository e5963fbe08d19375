-- ===== src/Checkpoint/Transaction/Unrestorable.antt =====
-- The restore of a checkpoint that a transaction of src/checkpoint/transaction.rs has committed to a storage.
use mathlib.Core.List.{append_assoc, append-nil}
use layertwine.Prelude.{
  ℕ, suc, ◌+◌, ◌≡◌, refl, sym, ap, ◌∙◌, subst, List, [], ◌∷◌, ◌++◌, none, some, Text, length,
  get_elem?, ◌==◌, ==_refl, arith, Bool-cases, inl, inr, ok, err, Error, lookup, insert,
  lookup-insert,
}
use layertwine.Core.Ids.{Bytes}
use layertwine.Core.Partition.{SnapshotId}
use layertwine.Core.Snapshots.{
  Snapshot, SnapshotContent, FileNode, to_bytes, file_node, new_with_content,
}
use layertwine.Storage.Checkpoints
use layertwine.Storage.Checkpoints.{
  Store, statement, find_snapshot, find_checkpoint, or_ignore, headed, snapshot_or_ignore,
}
use layertwine.Storage.Checkpoints.Rows.{statement_ok}
use layertwine.Storage.Contents.{find_file, get_file_content}
use layertwine.Layered.Contents.{reconstruct_text}
use layertwine.Checkpoint.Dag.{CheckpointId}
use layertwine.Checkpoint.Types.{Checkpoint, Branch, checkpoint}
use layertwine.Checkpoint.Repo.{CheckpointRepo, current, on_storage}
use layertwine.Checkpoint.Repo.History.{cache_snapshot, get_snapshot_by_id, get_checkpoint}
use layertwine.Checkpoint.Restore.{restore_full, load_all_snapshot_contents, content_in}
use layertwine.Checkpoint.Transaction.{
  CheckpointTransaction, snapshot_of, store_snapshot_content, store_all, commit, commit_pending,
  store_checkpoint_internal, put_checkpoint, move_head, checkpoint_of,
}

-- The file of a snapshot has no content in the table.
abbrev pub HasNoFile : List (FileNode × Bytes) → FileNode → Type 0
HasNoFile files file = find_file files file.file_path file.base_hash ≡ none

-- The snapshot is in memory, and its file has no content in the table.
pub IsUnread : List (FileNode × Bytes) → List (SnapshotId × Snapshot) → SnapshotId → Type 0
IsUnread files snapshots id =
    (s : Snapshot) × (lookup id snapshots ≡ some s) × HasNoFile files s.file

insert-IsUnread :
    (files : List (FileNode × Bytes)) (snapshots : List (SnapshotId × Snapshot)) (s : Snapshot)
    (id : SnapshotId)
    → HasNoFile files s.file
    → IsUnread files snapshots id
    → IsUnread files (insert s.id s snapshots) id
unfolding IsUnread
insert-IsUnread files snapshots s id missing (t, found, unread) = elim (Bool-cases (s.id == id)) [
  | inl same ↦ (s, lookup-insert s.id id s snapshots ∙ rw same refl, missing)
  | inr other ↦ (t, lookup-insert s.id id s snapshots ∙ rw other found, unread)
]

module _ (now : ℕ) (blake3 : Bytes → ℕ) where
  -- What the writes of snapshots leave behind.
  record Stored (r : ℕ) (store : Store) (before after : CheckpointRepo) : Type 0 where
    left : Store
    storage : after.storage ≡ some left
    room : left.room ≡ r
    file_nodes : left.file_nodes ≡ store.file_nodes
    branches : after.branches ≡ before.branches
    current_branch : after.current_branch ≡ before.current_branch
    unread :
        (id : SnapshotId)
        → IsUnread store.file_nodes before.snapshots id
        → IsUnread store.file_nodes after.snapshots id

  unfoldable pub AreMissing : List (FileNode × Bytes) → List (SnapshotContent × Text) → Type 0
  AreMissing files [] = Unit
  AreMissing files ((content, source) ∷ pending) =
      HasNoFile files (file_node blake3 source (to_bytes content)) × AreMissing files pending

  store_one :
      (content : SnapshotContent) (source : Text) (repo : CheckpointRepo) (store : Store) (r : ℕ)
      → repo.storage ≡ some store
      → store.room ≡ suc r
      → HasNoFile store.file_nodes (file_node blake3 source (to_bytes content))
      → (after : CheckpointRepo) × (store_snapshot_content now blake3 content source repo
          ≡ (ok (snapshot_of now blake3 content source), after))
        × Stored r store repo after
        × IsUnread store.file_nodes after.snapshots (snapshot_of now blake3 content source).id
  unfolding store_snapshot_content on_storage Checkpoints.store_snapshot cache_snapshot IsUnread
      new_with_content
  store_one content source repo store r e room missing =
      let snap = snapshot_of now blake3 content source in
      let store' : Store = record store {
        snapshots = snapshot_or_ignore (find_snapshot store.snapshots snap.id) store.snapshots snap;
        room = r;
      } in
      let written : Checkpoints.store_snapshot snap store ≡ (ok tt, store') =
        statement_ok _ store r room in
      (
        cache_snapshot snap (record repo { storage = some store' }),
        rw (e, written) refl,
        record {
          left = store';
          storage = refl;
          room = refl;
          file_nodes = refl;
          branches = refl;
          current_branch = refl;
          unread = λ id. insert-IsUnread store.file_nodes repo.snapshots snap id missing;
        },
        (
          snap,
          lookup-insert snap.id snap.id snap repo.snapshots ∙ rw (==_refl snap.id) refl,
          missing,
        ),
      )

  Stored-trans :
      (m r : ℕ) (store : Store) (a b c : CheckpointRepo) (first : Stored m store a b)
      → Stored r first.left b c
      → Stored r store a c
  Stored-trans m r store a b c first second = record {
    left = second.left;
    storage = second.storage;
    room = second.room;
    file_nodes = second.file_nodes ∙ first.file_nodes;
    branches = second.branches ∙ first.branches;
    current_branch = second.current_branch ∙ first.current_branch;
    unread = λ id before.
        subst (λ files. IsUnread files c.snapshots id) first.file_nodes
          (second.unread id (
            subst (λ files. IsUnread files b.snapshots id) (sym first.file_nodes)
              (first.unread id before)));
  }

  store_all_lem :
      (pending : List (SnapshotContent × Text)) (baseline : List SnapshotId)
      (sources : List (SnapshotId × Text)) (repo : CheckpointRepo) (store : Store) (r : ℕ)
      → repo.storage ≡ some store
      → store.room ≡ length pending + r
      → AreMissing store.file_nodes pending
      → (ids : List SnapshotId) × (sources' : List (SnapshotId × Text)) × (after : CheckpointRepo)
        × (store_all now blake3 pending baseline sources repo
            ≡ (ok (baseline ++ ids, sources'), after))
        × Stored r store repo after
  unfolding store_all AreMissing
  store_all_lem [] baseline sources repo store r e room missing = (
    [],
    sources,
    repo,
    rw (append-nil baseline) refl,
    record {
      left = store;
      storage = e;
      room = omega arith;
      file_nodes = refl;
      branches = refl;
      current_branch = refl;
      unread = λ id h. h;
    },
  )
  store_all_lem ((content, source) ∷ pending) baseline sources repo store r e room
        (missing, others) =
      let m = length pending + r in
      let (next, run, first, _) = store_one content source repo store m e (omega arith) missing in
      let snap = snapshot_of now blake3 content source in
      let (ids, sources', after, runs, second) =
        store_all_lem pending (baseline ++ (snap.id ∷ [])) (insert snap.id source sources) next
          first.left r first.storage first.room
          (subst (λ files. AreMissing files pending) (sym first.file_nodes) others) in
      (
        snap.id ∷ ids,
        sources',
        after,
        rw (run, runs)
            (ap (λ all. (ok (all, sources'), after)) (append_assoc baseline (snap.id ∷ []) ids)),
        Stored-trans m r store repo next after first second,
      )

  first_phase :
      (content : SnapshotContent) (source : Text) (pending : List (SnapshotContent × Text))
      (repo : CheckpointRepo) (store : Store) (r : ℕ)
      → repo.storage ≡ some store
      → store.room ≡ suc (length pending + r)
      → AreMissing store.file_nodes ((content, source) ∷ pending)
      → (ids : List SnapshotId) × (sources : List (SnapshotId × Text)) × (done : CheckpointRepo)
        × (store_all now blake3 ((content, source) ∷ pending) [] [] repo
            ≡ (ok ((snapshot_of now blake3 content source).id ∷ ids, sources), done))
        × Stored r store repo done
        × IsUnread store.file_nodes done.snapshots (snapshot_of now blake3 content source).id
  unfolding store_all AreMissing
  first_phase content source pending repo store r e room (missing, others) =
      let snap = snapshot_of now blake3 content source in
      let (next, run, first, unread) =
        store_one content source repo store (length pending + r) e room missing in
      let (ids, sources, done, runs, rest) =
        store_all_lem pending (snap.id ∷ []) (insert snap.id source []) next first.left r
          first.storage first.room
          (subst (λ files. AreMissing files pending) (sym first.file_nodes) others) in
      (
        ids,
        sources,
        done,
        rw run runs,
        Stored-trans (length pending + r) r store repo next done first rest,
        subst (λ files. IsUnread files done.snapshots snap.id) first.file_nodes
            (rest.unread snap.id (
              subst (λ files. IsUnread files next.snapshots snap.id) (sym first.file_nodes)
                unread)),
      )

  second_phase :
      (cp : Checkpoint) (done : CheckpointRepo) (store : Store) (b : Branch) (r : ℕ)
      → done.storage ≡ some store
      → store.room ≡ 2 + r
      → get_elem? done.branches done.current_branch ≡ some b
      → (after : CheckpointRepo) × (last : Store) × (store_checkpoint_internal now cp done
          ≡ (ok tt, after))
        × (lookup cp.id after.checkpoints ≡ some cp)
        × (after.snapshots ≡ done.snapshots)
        × (after.storage ≡ some last)
        × (last.file_nodes ≡ store.file_nodes)
  unfolding store_checkpoint_internal on_storage current Checkpoints.store_checkpoint
      Checkpoints.update_branch_head
  second_phase cp done store b r e room here =
      let middle : Store = record store {
        checkpoints = or_ignore (find_checkpoint store.checkpoints cp.id) store.checkpoints cp;
        room = suc r;
      } in
      let last : Store = record middle {
        branches = headed now b.name cp.id middle.branches;
        room = r;
      } in
      let first_write : Checkpoints.store_checkpoint cp store ≡ (ok tt, middle) =
        statement_ok _ store (suc r) (room ∙ omega arith) in
      let second_write : Checkpoints.update_branch_head now b.name cp.id middle ≡ (ok tt, last) =
        statement_ok _ middle r refl in
      (
        record (move_head now cp (put_checkpoint cp done)) { storage = some last },
        last,
        rw (here, e, first_write, second_write) refl,
        lookup-insert cp.id cp.id cp done.checkpoints ∙ rw (==_refl cp.id) refl,
        refl,
        refl,
        refl,
      )

  -- A restore whose first snapshot has no content in the table of files fails.
  load_unread :
      (from_utf8_lossy : Bytes → Text) (repo : CheckpointRepo) (store : Store) (id : SnapshotId)
      (ids : List SnapshotId)
      → repo.storage ≡ some store
      → IsUnread store.file_nodes repo.snapshots id
      → load_all_snapshot_contents from_utf8_lossy repo (id ∷ ids) ≡ err Error.storage
  unfolding load_all_snapshot_contents get_snapshot_by_id content_in reconstruct_text
      get_file_content IsUnread
  load_unread from_utf8_lossy repo store id ids e (s, found, missing) = rw (found, e, missing) refl

  -- A transaction with snapshots commits where the current branch is there and the storage takes two writes more than
  -- there are snapshots; if the table of files has no content for the sources of its snapshots, a full restore of the checkpoint
  -- that it has made fails.
  pub commit_unrestorable :
      (from_utf8_lossy : Bytes → Text) (tx : CheckpointTransaction) (repo : CheckpointRepo)
      (store : Store) (content : SnapshotContent) (source : Text)
      (pending : List (SnapshotContent × Text)) (b : Branch) (r : ℕ)
      → tx.snapshots_to_commit ≡ (content, source) ∷ pending
      → repo.storage ≡ some store
      → store.room ≡ length tx.snapshots_to_commit + (2 + r)
      → AreMissing store.file_nodes tx.snapshots_to_commit
      → get_elem? repo.branches repo.current_branch ≡ some b
      → (id : CheckpointId) × (after : CheckpointRepo) × (commit now blake3 tx repo
          ≡ (ok id, after))
        × (restore_full from_utf8_lossy after id ≡ err Error.storage)
  unfolding commit restore_full get_checkpoint checkpoint
  commit_unrestorable from_utf8_lossy tx repo store content source pending b r listed e room missing
        here =
      let snap = snapshot_of now blake3 content source in
      let (ids, sources, done, runs, stored, unread) =
        first_phase content source pending repo store (2 + r) e (room ∙ rw listed (omega arith))
          (subst (AreMissing store.file_nodes) listed missing) in
      let cp = checkpoint_of now blake3 tx (snap.id ∷ ids) sources in
      let still : get_elem? done.branches done.current_branch ≡ some b =
        rw (stored.branches, stored.current_branch) here in
      let (after, last, written, known, snapshots, kept, files) =
        second_phase cp done stored.left b r stored.storage stored.room still in
      let refused =
        load_unread from_utf8_lossy after last snap.id ids kept
          (rw (snapshots, files, stored.file_nodes) unread) in
      (
        cp.id,
        after,
        ap (λ ps. commit_pending now blake3 ps tx repo) listed ∙ rw (runs, written) refl,
        rw (known, refused) refl,
      )
