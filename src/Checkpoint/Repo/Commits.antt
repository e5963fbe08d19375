-- ===== src/Checkpoint/Repo/Commits.antt =====
-- The commits and merges of a `CheckpointRepo` (src/checkpoint/repo.rs), in memory and on its storage.
use layertwine.Prelude.{
  ℕ, ◌+◌, ◌-◌, ◌*◌, ◌≤◌, ◌≡◌, refl, subst, ◌∙◌, true, false, ◌||◌, List, [], ◌∷◌, Option, none,
  some, Text, text_eq, get_elem?, length, ◌==◌, arith, Bool-cases, inl, inr, ok, err, Error, lookup,
  insert, contains,
}
use layertwine.Core.Ids.{Bytes}
use layertwine.Core.Partition.{SnapshotId}
use layertwine.Checkpoint.Dag.{CheckpointId, add_node, generation_of}
use layertwine.Checkpoint.Types.{
  Checkpoint, Branch, checkpoint, metadata_of, set_head, is_empty_list,
}
use layertwine.Storage.Checkpoints.{Store}
use layertwine.Checkpoint.Repo.{
  CheckpointRepo, current, update_at, add_edges, record_checkpoint, persist, on_storage, entered,
  kept, commit, commit_allow_empty, merge_branches, get_branch_head, find_branch, branch_position,
}
use layertwine.Checkpoint.Repo.Branches.{All-get}
use layertwine.Checkpoint.Repo.Valid.{IsValid, has_key, entered-IsConsistent}
use layertwine.Checkpoint.Repo.Backed.{
  Agrees, persisted_lem, entered-Agrees, known_generation, add_edges_known, add_node_known,
}

-- The storage, if there is one, says the same as the memory, and `n` more writes succeed.
abbrev pub BackedBy : ℕ → CheckpointRepo → Option Store → Type 0
BackedBy n repo none = Unit
BackedBy n repo (some store) =
    Agrees repo.branches repo.current_branch repo.checkpoint_dag repo.checkpoints store
    × (n ≤ store.room)

abbrev pub IsBacked : ℕ → CheckpointRepo → Type 0
IsBacked n repo = BackedBy n repo repo.storage

-- The repository after a checkpoint has been recorded: it is valid and backed, it has the checkpoint, and the current
-- branch points to it.
pub record Recorded (now n : ℕ) (cp : Checkpoint) (before after : CheckpointRepo) : Type 0 where
  pub valid : IsValid after
  pub persisted : IsBacked n after
  pub checkpoints : after.checkpoints ≡ insert cp.id cp before.checkpoints
  pub branches :
      after.branches ≡ update_at before.current_branch (λ b. set_head now b cp.id) before.branches
  pub current_branch : after.current_branch ≡ before.current_branch

record_checkpoint_lem :
    (now n : ℕ) (cp : Checkpoint) (b : Branch) (repo : CheckpointRepo)
    → IsValid repo
    → IsBacked (2 + (3 * length cp.parents + n)) repo
    → get_elem? repo.branches repo.current_branch ≡ some b
    → lookup cp.id repo.checkpoints ≡ none
    → is_empty_list cp.parents ≡ false
    → ((x : CheckpointId) → contains cp.parents x ≡ true → has_key x repo.checkpoints ≡ true)
    → (after : CheckpointRepo) × (record_checkpoint now cp b repo ≡ (ok cp.id, after))
      × Recorded now n cp repo after
unfolding record_checkpoint persist on_storage entered kept
record_checkpoint_lem now n cp b repo v backed_before here fresh some_parent known =
    go repo.storage refl backed_before
  where
    go :
        (st : Option Store)
        → repo.storage ≡ st
        → BackedBy (2 + (3 * length cp.parents + n)) repo st
        → (after : CheckpointRepo) × (record_checkpoint now cp b repo ≡ (ok cp.id, after))
          × Recorded now n cp repo after
    go none e _ = (
      kept now cp (entered now cp repo),
      rw e refl,
      record {
        valid =
            entered-IsConsistent repo.branches repo.current_branch repo.checkpoint_dag
              repo.checkpoints repo.time_index now cp v fresh known;
        persisted = rw e tt;
        checkpoints = refl;
        branches = refl;
        current_branch = refl;
      },
    )
    go (some store) e (agrees, room) =
        let dag' = add_edges (add_node repo.checkpoint_dag cp.id) cp.parents cp.id in
        let gen = known_generation dag' cp.id (
          add_edges_known (add_node repo.checkpoint_dag cp.id) cp.parents cp.id
            (add_node_known repo.checkpoint_dag cp.id)) in
        let (store', written, room', rows, branches, metadata, edges, generations) =
          persisted_lem cp b.name (generation_of dag' cp.id) now
            (store.room - (2 + 3 * length cp.parents)) store (agrees.rows cp.id ∙ fresh)
            (omega arith) in
        (
          record (kept now cp (entered now cp repo)) { storage = some store' },
          rw (e, gen, written) refl,
          record {
            valid =
                entered-IsConsistent repo.branches repo.current_branch repo.checkpoint_dag
                  repo.checkpoints repo.time_index now cp v fresh known;
            persisted = (
              entered-Agrees repo.branches repo.current_branch repo.checkpoint_dag repo.checkpoints
                  store store' repo.time_index now cp b v agrees here fresh some_parent known rows
                  branches metadata edges generations,
              omega arith,
            );
            checkpoints = refl;
            branches = refl;
            current_branch = refl;
          },
        )

head_known :
    (b : Branch) (repo : CheckpointRepo)
    → IsValid repo
    → get_elem? repo.branches repo.current_branch ≡ some b
    → has_key b.head repo.checkpoints ≡ true
head_known b repo v here =
    All-get (λ b. has_key b.head repo.checkpoints ≡ true) repo.current_branch repo.branches b
      v.heads here

module _ (blake3 : Bytes → ℕ) (now : ℕ) (snapshot_ids : List SnapshotId)
    (message author : Text) where
  -- The checkpoint that a commit makes on some parents.
  abbrev pub made : List CheckpointId → Checkpoint
  made parents = checkpoint blake3 now snapshot_ids parents (metadata_of author message)

  made-parents : (parents : List CheckpointId) → (made parents).parents ≡ parents
  unfolding checkpoint
  made-parents parents = refl

  record_made :
      (n : ℕ) (first : CheckpointId) (parents : List CheckpointId) (b : Branch)
      (repo : CheckpointRepo)
      → IsValid repo
      → IsBacked (5 + (3 * length parents + n)) repo
      → get_elem? repo.branches repo.current_branch ≡ some b
      → lookup (made (first ∷ parents)).id repo.checkpoints ≡ none
      → ((x : CheckpointId)
          → contains (first ∷ parents) x ≡ true
          → has_key x repo.checkpoints ≡ true)
      → (after : CheckpointRepo) × (record_checkpoint now (made (first ∷ parents)) b repo
          ≡ (ok (made (first ∷ parents)).id, after))
        × Recorded now n (made (first ∷ parents)) repo after
  record_made n first parents b repo v persisted here fresh known =
      record_checkpoint_lem now n (made (first ∷ parents)) b repo v
        (subst (λ m. IsBacked m repo) (rw (made-parents (first ∷ parents)) (omega arith)) persisted)
        here fresh (rw (made-parents (first ∷ parents)) refl)
        (λ x h. known x (rw (made-parents (first ∷ parents)) at h))

  -- In a valid repository whose storage, if there is one, agrees with it and takes five more writes, snapshots that are not
  -- empty and not those of the head are committed, if the id of the new checkpoint is new: the result is that id, the new
  -- checkpoint's parent is the head, the repository after it is valid and agrees with its storage, it has that
  -- checkpoint and those before, and of the branches only the current one has moved, to the new checkpoint.
  pub commit_lem :
      (n : ℕ) (b : Branch) (head : Checkpoint) (repo : CheckpointRepo)
      → IsValid repo
      → IsBacked (5 + n) repo
      → get_elem? repo.branches repo.current_branch ≡ some b
      → lookup b.head repo.checkpoints ≡ some head
      → is_empty_list snapshot_ids ≡ false
      → text_eq head.baseline_snapshots snapshot_ids ≡ false
      → lookup (made (b.head ∷ [])).id repo.checkpoints ≡ none
      → (after : CheckpointRepo) × (commit now blake3 snapshot_ids message author repo
          ≡ (ok (made (b.head ∷ [])).id, after))
        × Recorded now n (made (b.head ∷ [])) repo after
  unfolding commit current
  commit_lem n b head repo v persisted here found full differ fresh =
      let (after, done, recorded) =
        record_made n b.head [] b repo v (subst (λ m. IsBacked m repo) (omega arith) persisted) here
          fresh
          (λ x h.
            subst (λ x. has_key x repo.checkpoints ≡ true) (ground arith)
              (head_known b repo v here)) in
      (after, rw (full, here, found, differ) done, recorded)

  -- The same without the comparison with the head, also for no snapshots.
  pub commit_allow_empty_lem :
      (n : ℕ) (b : Branch) (repo : CheckpointRepo)
      → IsValid repo
      → IsBacked (5 + n) repo
      → get_elem? repo.branches repo.current_branch ≡ some b
      → lookup (made (b.head ∷ [])).id repo.checkpoints ≡ none
      → (after : CheckpointRepo) × (commit_allow_empty now blake3 snapshot_ids message author repo
          ≡ (ok (made (b.head ∷ [])).id, after))
        × Recorded now n (made (b.head ∷ [])) repo after
  unfolding commit_allow_empty current
  commit_allow_empty_lem n b repo v persisted here fresh =
      let (after, done, recorded) =
        record_made n b.head [] b repo v (subst (λ m. IsBacked m repo) (omega arith) persisted) here
          fresh
          (λ x h.
            subst (λ x. has_key x repo.checkpoints ≡ true) (ground arith)
              (head_known b repo v here)) in
      (after, rw here done, recorded)

  -- A merge of another branch into the current one, with eight writes of room: the new checkpoint has both heads as its
  -- parents.
  pub merge_branches_lem :
      (n i : ℕ) (source : Text) (b c : Branch) (repo : CheckpointRepo)
      → IsValid repo
      → IsBacked (8 + n) repo
      → get_elem? repo.branches repo.current_branch ≡ some b
      → branch_position repo.branches source ≡ some i
      → get_elem? repo.branches i ≡ some c
      → is_empty_list snapshot_ids ≡ false
      → lookup (made (b.head ∷ c.head ∷ [])).id repo.checkpoints ≡ none
      → (after : CheckpointRepo) × (merge_branches now blake3 source snapshot_ids message author
            repo
          ≡ (ok (made (b.head ∷ c.head ∷ [])).id, after))
        × Recorded now n (made (b.head ∷ c.head ∷ [])) repo after
  unfolding merge_branches current get_branch_head find_branch
  merge_branches_lem n i source b c repo v persisted here position there full fresh =
      let known = head_known b repo v here in
      let known' =
        All-get (λ b. has_key b.head repo.checkpoints ≡ true) i repo.branches c v.heads there in
      let (after, done, recorded) =
        record_made n b.head (c.head ∷ []) b repo v
          (subst (λ m. IsBacked m repo) (omega arith) persisted) here fresh
          (λ x h. (elim (Bool-cases (b.head == x)) [
            | inl same ↦ subst (λ x. has_key x repo.checkpoints ≡ true) (ground arith) known
            | inr other ↦ subst (λ x. has_key x repo.checkpoints ≡ true) (ground arith) known'
          ])) in
      (after, rw (full, position, there, here) done, recorded)

  -- A commit is refused, and changes nothing, without snapshots and with those of the head.
  pub commit_refused :
      (repo : CheckpointRepo) (b : Branch) (head : Checkpoint)
      → get_elem? repo.branches repo.current_branch ≡ some b
      → lookup b.head repo.checkpoints ≡ some head
      → (is_empty_list snapshot_ids || text_eq head.baseline_snapshots snapshot_ids) ≡ true
      → commit now blake3 snapshot_ids message author repo ≡ (err Error.checkpoint, repo)
  unfolding commit current
  commit_refused repo b head here found refused = elim (Bool-cases (is_empty_list snapshot_ids)) [
    | inl empty ↦ rw empty refl
    | inr full ↦
        let same : text_eq head.baseline_snapshots snapshot_ids ≡ true = ground arith in
        rw (full, here, found, same) refl
  ]
