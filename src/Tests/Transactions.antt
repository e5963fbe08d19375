-- ===== src/Tests/Transactions.antt =====
-- Runs of the transactions of src/checkpoint/transaction.rs, with the number of bytes for a hash.
use layertwine.Prelude.{
  ℕ, ◌≡◌, refl, List, [], ◌∷◌, some, none, Text, codes, get_elem?, length, ok, err, Error, arith,
}
use layertwine.Core.Ids.{Bytes, as_bytes, utf8_char, be_bytes}
use layertwine.Core.Snapshots
use layertwine.Core.Snapshots.{
  SnapshotContent, flat_ids, new_with_content, file_node, to_bytes, content_type,
}
use layertwine.Storage.Contents.{find_file}
use layertwine.Checkpoint.Dag.{CheckpointId}
use layertwine.Checkpoint.Types.{Branch, metadata_of, set_head, branch, checkpoint}
use layertwine.Checkpoint.Repo.{CheckpointRepo, current, create_root_checkpoint}
use layertwine.Checkpoint.Repo
use layertwine.Checkpoint.Repo.Root.{empty_store}
use layertwine.Checkpoint.Restore.{RestoreResponse, restore_full}
use layertwine.Checkpoint.Transaction.{CheckpointTransaction, new, commit}
use layertwine.Checkpoint.Transaction.RoundTrip.{
  DoNotClash, IsApart, AreApart, all_restored, commit-restore_full,
}
use layertwine.Checkpoint.Transaction.Unrestorable.{AreMissing, commit_unrestorable}

abbrev count_bytes : Bytes → ℕ
count_bytes bytes = length bytes

abbrev two_snapshots : List (SnapshotContent × Text)
two_snapshots =
    (SnapshotContent.file_content (codes "x"), codes "file://a")
    ∷ (SnapshotContent.json_metadata (codes "y"), codes "db://main/b")
    ∷ []

abbrev tx : CheckpointTransaction
tx = record (new (metadata_of (codes "a") (codes "two")) []) { snapshots_to_commit = two_snapshots }

abbrev repo : CheckpointRepo
repo = Repo.new 5 count_bytes []

abbrev main : Branch
main =
    branch 5 (codes "main")
      (checkpoint count_bytes 5 [] [] (metadata_of (codes "system") (codes "root checkpoint"))).id

on_main : get_elem? repo.branches repo.current_branch ≡ some main
unfolding Repo.new create_root_checkpoint
on_main = refl

apart : AreApart 6 count_bytes tx.snapshots_to_commit
unfolding AreApart IsApart DoNotClash new_with_content Snapshots.compute_id Snapshots.hashed
    file_node to_bytes content_type flat_ids as_bytes utf8_char be_bytes new
apart = ((λ e. absurd (omega arith), tt), (tt, tt))

in_memory : repo.storage ≡ none
unfolding Repo.new create_root_checkpoint
in_memory = refl

commit-restore_full_example :
    (id : CheckpointId) × (after : CheckpointRepo) × (response : RestoreResponse) × (commit 6
        count_bytes tx repo
      ≡ (ok id, after))
    × (current after ≡ ok (set_head 6 main id))
    × (restore_full (λ bytes. bytes) after id ≡ ok response)
    × (response.snapshots ≡ all_restored 6 count_bytes tx.snapshots_to_commit)
commit-restore_full_example =
    commit-restore_full 6 count_bytes (λ bytes. bytes) tx repo
      (SnapshotContent.file_content (codes "x"), codes "file://a")
      ((SnapshotContent.json_metadata (codes "y"), codes "db://main/b") ∷ []) main refl apart
      in_memory on_main

-- The same repository on a storage.
abbrev backed : CheckpointRepo
backed = record repo { storage = some (empty_store 9) }

missing : AreMissing 6 count_bytes (empty_store 9).file_nodes tx.snapshots_to_commit
unfolding AreMissing find_file
missing = (refl, (refl, tt))

commit_unrestorable_example :
    (id : CheckpointId) × (after : CheckpointRepo) × (commit 6 count_bytes tx backed
      ≡ (ok id, after))
    × (restore_full (λ bytes. bytes) after id ≡ err Error.storage)
commit_unrestorable_example =
    commit_unrestorable 6 count_bytes (λ bytes. bytes) tx backed (empty_store 9)
      (SnapshotContent.file_content (codes "x")) (codes "file://a")
      ((SnapshotContent.json_metadata (codes "y"), codes "db://main/b") ∷ []) main 5 refl refl refl
      missing on_main
