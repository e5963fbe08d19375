-- ===== src/Checkpoint/Transaction/RoundTrip.antt =====
-- The restore of what a transaction of src/checkpoint/transaction.rs has committed in memory.
use mathlib.Core.List.{append_assoc, append-nil}
use layertwine.Prelude.{
  ℕ, ◌≡◌, refl, sym, ap, subst, ◌∙◌, List, [], ◌∷◌, ◌++◌, none, some, Text, get_elem?, ◌==◌,
  ==_refl, ==_iff, Bool-cases, inl, inr, ok, ◌>>>◌, lookup, get_or_default, insert, lookup-insert,
}
use layertwine.Core.Ids.{Bytes}
use layertwine.Core.Partition.{SnapshotId}
use layertwine.Core.Snapshots.{Snapshot, SnapshotContent, new_with_content}
use layertwine.Storage.Checkpoints
use layertwine.Checkpoint.Dag.{CheckpointId}
use layertwine.Checkpoint.Types.{Checkpoint, Branch, checkpoint, set_head}
use layertwine.Checkpoint.Repo.{CheckpointRepo, current, on_storage, if_stored}
use layertwine.Checkpoint.Repo.Branches.{get_elem?-update_at}
use layertwine.Checkpoint.Repo.History.{
  cache_snapshot, get_snapshot_by_id, get_checkpoint, get_ancestry_chain,
}
use layertwine.Checkpoint.Restore.{
  RestoreResponse, restore_full, load_all_snapshot_contents, content_in,
}
use layertwine.Checkpoint.Transaction.{
  CheckpointTransaction, snapshot_of, store_snapshot_content, store_all, commit, commit_pending,
  store_checkpoint_internal, put_checkpoint, move_head, checkpoint_of,
}

module _ (now : ℕ) (blake3 : Bytes → ℕ) where
  -- The snapshot of a content and a source.
  abbrev snap : SnapshotContent × Text → Snapshot
  snap (content, source) = snapshot_of now blake3 content source

  -- Two snapshots with one id are the same.
  unfoldable pub DoNotClash : SnapshotContent × Text → SnapshotContent × Text → Type 0
  DoNotClash p q = (snap p).id ≡ (snap q).id → p ≡ q

  unfoldable pub IsApart : SnapshotContent × Text → List (SnapshotContent × Text) → Type 0
  IsApart p [] = Unit
  IsApart p (q ∷ pending) = DoNotClash p q × IsApart p pending

  -- No two snapshots clash.
  unfoldable pub AreApart : List (SnapshotContent × Text) → Type 0
  AreApart [] = Unit
  AreApart (p ∷ pending) = IsApart p pending × AreApart pending

  -- What a restore gives for a content and a source.
  abbrev pub restored : SnapshotContent × Text → SnapshotId × (SnapshotContent × Text)
  restored p = ((snap p).id, p)

  unfoldable pub all_restored :
      List (SnapshotContent × Text) → List (SnapshotId × (SnapshotContent × Text))
  all_restored [] = []
  all_restored (p ∷ pending) = restored p ∷ all_restored pending

  snap_ids : List (SnapshotContent × Text) → List SnapshotId
  snap_ids [] = []
  snap_ids (p ∷ pending) = (snap p).id ∷ snap_ids pending

  sources_of : List (SnapshotContent × Text) → List (SnapshotId × Text) → List (SnapshotId × Text)
  sources_of [] sources = sources
  sources_of (p ∷ pending) sources = sources_of pending (insert (snap p).id p.1 sources)

  cache_all :
      List (SnapshotContent × Text) → List (SnapshotId × Snapshot) → List (SnapshotId × Snapshot)
  cache_all [] snapshots = snapshots
  cache_all (p ∷ pending) snapshots = cache_all pending (insert (snap p).id (snap p) snapshots)

  IsCached : List (SnapshotId × Snapshot) → SnapshotContent × Text → Type 0
  IsCached snapshots p = lookup (snap p).id snapshots ≡ some (snap p)

  AreCached : List (SnapshotId × Snapshot) → List (SnapshotContent × Text) → Type 0
  AreCached snapshots [] = Unit
  AreCached snapshots (p ∷ pending) = IsCached snapshots p × AreCached snapshots pending

  store_one :
      (content : SnapshotContent) (source : Text) (repo : CheckpointRepo)
      → repo.storage ≡ none
      → store_snapshot_content now blake3 content source repo
        ≡ (ok (snap (content, source)), cache_snapshot (snap (content, source)) repo)
  unfolding store_snapshot_content on_storage
  store_one content source repo e =
      let p = snap (content, source) in
      ap
        (λ storage. if_stored storage (Checkpoints.store_snapshot p) repo >>> λ repo.
          (ok p, cache_snapshot p repo))
        e

  store_all_lem :
      (pending : List (SnapshotContent × Text)) (baseline : List SnapshotId)
      (sources : List (SnapshotId × Text)) (repo : CheckpointRepo)
      → repo.storage ≡ none
      → store_all now blake3 pending baseline sources repo ≡ (
        ok (baseline ++ snap_ids pending, sources_of pending sources),
        record repo { snapshots = cache_all pending repo.snapshots },
      )
  unfolding store_all cache_snapshot snap_ids sources_of cache_all
  store_all_lem [] baseline sources repo e =
      ap (λ all. (ok (all, sources), repo)) (sym (append-nil baseline))
  store_all_lem ((content, source) ∷ pending) baseline sources repo e =
      let p = snap (content, source) in
      let rest =
        store_all_lem pending (baseline ++ (p.id ∷ [])) (insert p.id source sources)
          (cache_snapshot p repo) e in
      rw (store_one content source repo e)
        (rest ∙ rw (append_assoc baseline (p.id ∷ []) (snap_ids pending)) refl)

  IsCached-insert :
      (p q : SnapshotContent × Text) (snapshots : List (SnapshotId × Snapshot))
      → DoNotClash p q
      → IsCached snapshots p
      → IsCached (insert (snap q).id (snap q) snapshots) p
  unfolding IsCached DoNotClash
  IsCached-insert p q snapshots apart cached = elim (Bool-cases ((snap q).id == (snap p).id)) [
    | inl same ↦
        let e : p ≡ q = apart (sym ((==_iff (snap q).id (snap p).id).0 same)) in
        lookup-insert (snap q).id (snap p).id (snap q) snapshots
        ∙ rw same (ap (λ r. some (snap r)) (sym e))
    | inr other ↦ lookup-insert (snap q).id (snap p).id (snap q) snapshots ∙ rw other cached
  ]

  cache_all-IsCached :
      (p : SnapshotContent × Text) (pending : List (SnapshotContent × Text))
      (snapshots : List (SnapshotId × Snapshot))
      → IsApart p pending
      → IsCached snapshots p
      → IsCached (cache_all pending snapshots) p
  unfolding cache_all IsApart
  cache_all-IsCached p [] snapshots apart cached = cached
  cache_all-IsCached p (q ∷ pending) snapshots (apart, others) cached =
      cache_all-IsCached p pending (insert (snap q).id (snap q) snapshots) others
        (IsCached-insert p q snapshots apart cached)

  cache_all-AreCached :
      (pending : List (SnapshotContent × Text)) (snapshots : List (SnapshotId × Snapshot))
      → AreApart pending
      → AreCached (cache_all pending snapshots) pending
  unfolding cache_all AreApart AreCached IsCached
  cache_all-AreCached [] snapshots apart = tt
  cache_all-AreCached (p ∷ pending) snapshots (apart, others) = (
    cache_all-IsCached p pending (insert (snap p).id (snap p) snapshots) apart
        (lookup-insert (snap p).id (snap p).id (snap p) snapshots ∙ rw (==_refl (snap p).id) refl),
    cache_all-AreCached pending (insert (snap p).id (snap p) snapshots) others,
  )

  load_cached :
      (from_utf8_lossy : Bytes → Text) (repo : CheckpointRepo)
      (pending : List (SnapshotContent × Text))
      → repo.storage ≡ none
      → AreCached repo.snapshots pending
      → load_all_snapshot_contents from_utf8_lossy repo (snap_ids pending)
        ≡ ok (all_restored pending)
  unfolding load_all_snapshot_contents get_snapshot_by_id content_in snap_ids all_restored AreCached
      IsCached new_with_content
  load_cached from_utf8_lossy repo [] e cached = refl
  load_cached from_utf8_lossy repo (p ∷ pending) e (here, others) =
      rw (here, e, load_cached from_utf8_lossy repo pending e others) refl

  store_checkpoint_internal_lem :
      (cp : Checkpoint) (repo : CheckpointRepo) (b : Branch)
      → repo.storage ≡ none
      → get_elem? repo.branches repo.current_branch ≡ some b
      → store_checkpoint_internal now cp repo ≡ (ok tt, move_head now cp (put_checkpoint cp repo))
  unfolding store_checkpoint_internal current on_storage
  store_checkpoint_internal_lem cp repo b e here =
      let after = move_head now cp (put_checkpoint cp repo) in
      rw here (
        ap
          (λ storage.
            if_stored storage
              (λ store.
                Checkpoints.store_checkpoint cp store
                >>> Checkpoints.update_branch_head now b.name cp.id)
              after)
          e)

  -- A transaction with snapshots that commits in a repository without a storage moves the current branch to its checkpoint, and a restore
  -- of it gives back every content with its source, in the order in which they were added, under the id of its
  -- snapshot, where different snapshots of the transaction have different ids.
  pub commit-restore_full :
      (from_utf8_lossy : Bytes → Text) (tx : CheckpointTransaction) (repo : CheckpointRepo)
      (p : SnapshotContent × Text) (pending : List (SnapshotContent × Text)) (b : Branch)
      → tx.snapshots_to_commit ≡ p ∷ pending
      → AreApart tx.snapshots_to_commit
      → repo.storage ≡ none
      → get_elem? repo.branches repo.current_branch ≡ some b
      → (id : CheckpointId) × (after : CheckpointRepo) × (response : RestoreResponse) × (commit now
            blake3 tx repo
          ≡ (ok id, after))
        × (current after ≡ ok (set_head now b id))
        × (restore_full from_utf8_lossy after id ≡ ok response)
        × (response.snapshots ≡ all_restored tx.snapshots_to_commit)
  unfolding commit restore_full get_checkpoint store_checkpoint_internal on_storage current
      checkpoint snap_ids
  commit-restore_full from_utf8_lossy tx repo p pending b listed apart e here =
      let cp = checkpoint_of now blake3 tx (snap_ids (p ∷ pending)) (sources_of (p ∷ pending) []) in
      let done : CheckpointRepo = record repo {
        snapshots = cache_all (p ∷ pending) repo.snapshots;
      } in
      let after = move_head now cp (put_checkpoint cp done) in
      let run = store_all_lem (p ∷ pending) [] [] repo e in
      let known : lookup cp.id (insert cp.id cp done.checkpoints) ≡ some cp =
        lookup-insert cp.id cp.id cp done.checkpoints ∙ rw (==_refl cp.id) refl in
      let loaded =
        load_cached from_utf8_lossy after (p ∷ pending) e
          (cache_all-AreCached (p ∷ pending) repo.snapshots (subst AreApart listed apart)) in
      let moved =
        get_elem?-update_at repo.current_branch (λ b. set_head now b cp.id) repo.branches b here in
      (
        cp.id,
        after,
        record {
          checkpoint = cp;
          snapshots = all_restored (p ∷ pending);
          ancestry = get_or_default [] (get_ancestry_chain after cp.id);
        },
        ap (λ ps. commit_pending now blake3 ps tx repo) listed
            ∙ rw (run, store_checkpoint_internal_lem cp done b e here) refl,
        rw moved refl,
        rw (known, loaded) refl,
        ap all_restored (sym listed),
      )
