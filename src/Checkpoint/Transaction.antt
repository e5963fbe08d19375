-- ===== src/Checkpoint/Transaction.antt =====
-- `CheckpointTransaction` of src/checkpoint/transaction.rs. A transaction is consumed by `commit` and `rollback`, so that the status
-- they leave is seen by no one. `now` is the reading of the clock, `blake3` the hash of the blake3 crate.
pub mod RoundTrip
pub mod Unrestorable
use layertwine.Prelude.{
  ℕ, Bool, true, false, List, [], ◌∷◌, ◌++◌, Text, codes, length, Result, ok, err, Error, ◌>>=◌,
  Action, ◌>>>=◌, ◌>>>◌, insert, insert_new,
}
use layertwine.Core.Ids.{Bytes}
use layertwine.Core.Partition.{SnapshotId}
use layertwine.Core.Snapshots.{Snapshot, SnapshotContent, to_bytes, file_node, new_with_content}
use layertwine.Storage.Checkpoints
use layertwine.Checkpoint.Dag.{CheckpointId, add_node}
use layertwine.Checkpoint.Types.{Checkpoint, CheckpointMetadata, metadata_of, checkpoint, set_head}
use layertwine.Checkpoint.Repo.{CheckpointRepo, current, update_at, add_edges, on_storage}
use layertwine.Checkpoint.Repo.History.{cache_snapshot}

pub data TransactionStatus : Type 0 where
  opened committed rolled_back : TransactionStatus

pub record CheckpointTransaction : Type 0 where
  pub snapshots_to_commit : List (SnapshotContent × Text)
  pub checkpoint_metadata : CheckpointMetadata
  pub parents : List CheckpointId
  pub status : TransactionStatus

unfoldable pub new : CheckpointMetadata → (parents : List CheckpointId) → CheckpointTransaction
new metadata parents = record {
  snapshots_to_commit = [];
  checkpoint_metadata = metadata;
  parents = parents;
  status = TransactionStatus.opened;
}

unfoldable pub add_snapshot :
    CheckpointTransaction → (source : Text) → SnapshotContent → CheckpointTransaction
add_snapshot tx source content = record tx {
  snapshots_to_commit = tx.snapshots_to_commit ++ ((content, source) ∷ []);
}

unfoldable pub snapshot_count : CheckpointTransaction → ℕ
snapshot_count tx = length tx.snapshots_to_commit

abbrev pub is_opened : TransactionStatus → Bool
is_opened TransactionStatus.opened = true
is_opened TransactionStatus.committed = false
is_opened TransactionStatus.rolled_back = false

abbrev pub is_open : CheckpointTransaction → Bool
is_open tx = is_opened tx.status

abbrev pub was_committed : TransactionStatus → Bool
was_committed TransactionStatus.opened = false
was_committed TransactionStatus.committed = true
was_committed TransactionStatus.rolled_back = false

abbrev pub is_committed : CheckpointTransaction → Bool
is_committed tx = was_committed tx.status

unfoldable pub rollback : CheckpointTransaction → CheckpointTransaction
rollback tx = record tx { status = TransactionStatus.rolled_back }

unfoldable pub transaction_with_metadata :
    CheckpointRepo → (author message : Text) → Result CheckpointTransaction
transaction_with_metadata repo author message =
    current repo >>= λ b. ok (new (metadata_of author message) (b.head ∷ []))

unfoldable pub transaction : CheckpointRepo → Result CheckpointTransaction
transaction repo = current repo >>= λ b.
    ok (new (metadata_of (codes "system") (codes "transaction")) (b.head ∷ []))

-- The changes in memory before the head moves.
abbrev pub put_checkpoint : Checkpoint → CheckpointRepo → CheckpointRepo
put_checkpoint cp repo = record repo {
  checkpoints = insert cp.id cp repo.checkpoints;
  checkpoint_dag = add_edges (add_node repo.checkpoint_dag cp.id) cp.parents cp.id;
}

module _ (now : ℕ) where
  abbrev pub move_head : Checkpoint → CheckpointRepo → CheckpointRepo
  move_head cp repo = record repo {
    branches = update_at repo.current_branch (λ b. set_head now b cp.id) repo.branches;
    dirty_checkpoints = insert_new cp.id repo.dirty_checkpoints;
  }

  unfoldable pub store_checkpoint_internal : Checkpoint → Action CheckpointRepo (Unit {0})
  store_checkpoint_internal cp repo =
      (current (put_checkpoint cp repo), put_checkpoint cp repo) >>>= λ b repo.
      on_storage
        (λ store.
          Checkpoints.store_checkpoint cp store >>> Checkpoints.update_branch_head now b.name cp.id)
        (move_head cp repo)

  module _ (blake3 : Bytes → ℕ) where
    abbrev pub snapshot_of : SnapshotContent → (source : Text) → Snapshot
    snapshot_of content source =
        new_with_content blake3 now (file_node blake3 source (to_bytes content)) content source []
          [] []

    unfoldable pub store_snapshot_content :
        SnapshotContent → (source : Text) → Action CheckpointRepo Snapshot
    store_snapshot_content content source repo =
        on_storage (Checkpoints.store_snapshot (snapshot_of content source)) repo >>> λ repo.
        (ok (snapshot_of content source), cache_snapshot (snapshot_of content source) repo)

    -- The first phase of `commit`, with the lists it has pushed to.
    unfoldable pub store_all :
        List (SnapshotContent × Text)
        → List SnapshotId
        → List (SnapshotId × Text)
        → Action CheckpointRepo (List SnapshotId × List (SnapshotId × Text))
    store_all [] baseline sources repo = (ok (baseline, sources), repo)
    store_all ((content, source) ∷ pending) baseline sources repo =
        let rest = store_all pending in
        store_snapshot_content content source repo >>>= λ snap repo.
        rest (baseline ++ (snap.id ∷ [])) (insert snap.id source sources) repo

    -- The id is computed before the sources are set.
    abbrev pub checkpoint_of :
        CheckpointTransaction → List SnapshotId → List (SnapshotId × Text) → Checkpoint
    checkpoint_of tx baseline sources =
        record (checkpoint blake3 now baseline tx.parents tx.checkpoint_metadata) {
          snapshot_sources = sources;
        }

    abbrev pub commit_pending :
        List (SnapshotContent × Text) → CheckpointTransaction → Action CheckpointRepo CheckpointId
    commit_pending [] tx repo = (err Error.transaction, repo)
    commit_pending (p ∷ pending) tx repo = store_all (p ∷ pending) [] [] repo >>>= λ stored repo.
        store_checkpoint_internal (checkpoint_of tx stored.0 stored.1) repo >>> λ repo.
        (ok (checkpoint_of tx stored.0 stored.1).id, repo)

    unfoldable pub commit : CheckpointTransaction → Action CheckpointRepo CheckpointId
    commit tx repo = commit_pending tx.snapshots_to_commit tx repo
