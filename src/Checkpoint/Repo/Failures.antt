-- ===== src/Checkpoint/Repo/Failures.antt =====
-- What is left of a `CheckpointRepo` (src/checkpoint/repo.rs) after an operation that fails or that does not look at the
-- current branch.
use layertwine.Prelude.{
  ℕ, zero, suc, ◌≡◌, refl, true, false, List, [], ◌∷◌, Option, none, some, Text, text_eq, get_elem?,
  leb, if◌then◌else◌, ap, Bool-cases, inl, inr, arith, ◌==◌, Result, ok, err, Error, lookup,
}
use layertwine.Core.Ids.{Bytes}
use layertwine.Core.Partition.{SnapshotId}
use layertwine.Checkpoint.Types.{Checkpoint, Branch, set_head, is_empty_list}
use layertwine.Storage.Checkpoints
use layertwine.Storage.Checkpoints.{Store, statement, without_branch}
use layertwine.Storage.Checkpoints.Rows.{statement_full}
use layertwine.Checkpoint.Repo.{
  CheckpointRepo, current, record_checkpoint, persist, on_storage, entered, commit, branch_position,
  find_branch, remove_branch, remove_index, indexed, if_stored, deleted_if_memory,
}
use layertwine.Checkpoint.Repo.Branches.{get_elem?-update_at}
use layertwine.Checkpoint.Repo.Commits.{made}

module _ (blake3 : Bytes → ℕ) (now : ℕ) (snapshot_ids : List SnapshotId)
    (message author : Text) where
  -- Where the storage takes no write, a commit with changes fails, but the current branch has moved to the new checkpoint, which the
  -- repository does not have; every later commit of any snapshots fails too, since the head is not found.
  pub commit_dangles :
      (b : Branch) (head : Checkpoint) (store : Store) (repo : CheckpointRepo)
      → get_elem? repo.branches repo.current_branch ≡ some b
      → lookup b.head repo.checkpoints ≡ some head
      → repo.storage ≡ some store
      → store.room ≡ 0
      → is_empty_list snapshot_ids ≡ false
      → text_eq head.baseline_snapshots snapshot_ids ≡ false
      → lookup (made blake3 now snapshot_ids message author (b.head ∷ [])).id repo.checkpoints
        ≡ none
      → (after : CheckpointRepo) × (commit now blake3 snapshot_ids message author repo
          ≡ (err Error.storage, after))
        × (current after
            ≡ ok (set_head now b (made blake3 now snapshot_ids message author (b.head ∷ [])).id))
        × (after.checkpoints ≡ repo.checkpoints)
        × ((later : ℕ) (ids : List SnapshotId) (message' author' : Text)
            → is_empty_list ids ≡ false
            → commit later blake3 ids message' author' after ≡ (err Error.not_found, after))
  unfolding commit current record_checkpoint persist on_storage entered Checkpoints.store_checkpoint
      set_head
  commit_dangles b head store repo here found stored no_room full differ fresh =
      let cp = made blake3 now snapshot_ids message author (b.head ∷ []) in
      let moved =
        get_elem?-update_at repo.current_branch (λ b. set_head now b cp.id) repo.branches b here in
      let refused : Checkpoints.store_checkpoint cp store ≡ (err Error.storage, store) =
        statement_full _ store no_room in
      (
        record (entered now cp repo) { storage = some store },
        rw (full, here, found, differ, stored, refused) refl,
        rw moved refl,
        refl,
        λ later ids message' author' full'. (rw (full', moved, fresh) refl),
      )

get_elem?-remove_index :
    (i j : ℕ) (bs : List Branch) (b : Branch)
    → get_elem? bs i ≡ some b
    → get_elem? (remove_index i bs) j ≡ get_elem? bs (if leb i j then suc j else j)
get_elem?-remove_index i j [] b h = absurd (cc)
get_elem?-remove_index zero j (c ∷ bs) b h = ground arith
get_elem?-remove_index (suc i) zero (c ∷ bs) b h = ground arith
get_elem?-remove_index (suc i) (suc j) (c ∷ bs) b h =
    let rest = get_elem?-remove_index i j bs b h in
    elim (Bool-cases (leb i j)) [
      | inl below ↦ let s : leb (suc i) (suc j) ≡ true = ground arith in rw s (rw below at rest)
      | inr above ↦ let s : leb (suc i) (suc j) ≡ false = ground arith in rw s (rw above at rest)
    ]

-- What the storage answers to one write.
abbrev pub write_result : Option Store → Result (Unit {0})
write_result none = ok tt
write_result (some store) = if store.room == 0 then err Error.storage else ok tt

removal_lem :
    (name : Text) (before : CheckpointRepo) (storage : Option Store)
    → (after : CheckpointRepo) × (if_stored storage (Checkpoints.delete_branch name) before
        ≡ (write_result storage, after))
      × (after.branches ≡ before.branches)
      × (after.current_branch ≡ before.current_branch)
unfolding Checkpoints.delete_branch statement
removal_lem name before none = (before, refl, refl, refl)
removal_lem name before (some store) = at_room store.room refl
  where
    at_room :
        (room : ℕ)
        → store.room ≡ room
        → (after : CheckpointRepo) × (if_stored (some store) (Checkpoints.delete_branch name) before
            ≡ (write_result (some store), after))
          × (after.branches ≡ before.branches)
          × (after.current_branch ≡ before.current_branch)
    at_room zero e = (record before { storage = some store }, rw e refl, refl, refl)
    at_room (suc room) e =
        let positive : (suc room == 0) ≡ false = ground arith in
        (
          record before {
            storage =
                some (record store { branches = without_branch name store.branches; room = room });
          },
          rw (e, positive) refl,
          refl,
          refl,
        )

-- The branches after the removed one move up by one, and the index of the current branch does not follow: it points to the
-- branch that stood one place further, which panics where there was none, unless the removed branch stood after it. This is so
-- with and without a storage; the removal fails exactly where there is a storage that takes no write, and also then the branches
-- in memory have moved.
pub remove_branch_shifts :
    (name : Text) (i : ℕ) (b : Branch) (repo : CheckpointRepo)
    → branch_position repo.branches name ≡ some i
    → get_elem? repo.branches i ≡ some b
    → (after : CheckpointRepo) × (remove_branch name repo ≡ (write_result repo.storage, after))
      × (current after
          ≡ indexed (
              get_elem? repo.branches (
                if leb i repo.current_branch
                then suc repo.current_branch
                else repo.current_branch)))
unfolding remove_branch find_branch on_storage current
remove_branch_shifts name i b repo position here =
    let before : CheckpointRepo = record repo {
      branches = remove_index i repo.branches;
      deleted_branches = deleted_if_memory repo.storage name repo.deleted_branches;
    } in
    let (after, run, branches, index) = removal_lem name before repo.storage in
    (
      after,
      rw (position, run) refl,
      rw (branches, index)
          (ap indexed (get_elem?-remove_index i repo.current_branch repo.branches b here)),
    )
