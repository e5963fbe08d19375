-- ===== src/Checkpoint/Repo.antt =====
-- `CheckpointRepo` of src/checkpoint/repo.rs: its state, commits, branches and merges. An operation gives its result and
-- the repository after it, since what was changed before an error stays. `now` is what the clock reads during the
-- operation, and `blake3` the hash of the blake3 crate. Maps and sets have no promised order.
pub mod Branches
pub mod Valid
pub mod Backed
pub mod Commits
pub mod Switches
pub mod Failures
pub mod Names
pub mod Root
pub mod Reload
pub mod Load
pub mod History
use layertwine.Prelude.{
  ℕ, zero, suc, ◌≡◌, Bool, true, false, ◌&&◌, List, [], ◌∷◌, ◌++◌, Option, none, some, Text, codes,
  text_eq, get_elem?, ◌==◌, if◌then◌else◌, Result, ok, err, Error, Action, ◌>>>=◌, ◌>>>◌, lookup,
  insert, insert_new,
}
use layertwine.Core.Ids.{Bytes}
use layertwine.Core.Partition.{SnapshotId}
use layertwine.Core.Snapshots.{Snapshot}
use layertwine.Checkpoint.Dag
use layertwine.Checkpoint.Dag.{CheckpointDag, CheckpointId, add_node, add_edge}
use layertwine.Checkpoint.TimeIndex
use layertwine.Checkpoint.TimeIndex.{insert_at}
use layertwine.Checkpoint.Types.{
  Checkpoint, CheckpointMetadata, Branch, metadata_of, checkpoint, branch, set_head, is_empty_list,
}
use layertwine.Storage.Checkpoints
use layertwine.Storage.Checkpoints.{Store, Write}

pub record CheckpointRepo : Type 0 where
  pub branches : List Branch
  pub current_branch : ℕ
  pub checkpoint_dag : CheckpointDag
  pub checkpoints : List (CheckpointId × Checkpoint)
  pub snapshots : List (SnapshotId × Snapshot)
  pub storage : Option Store
  pub time_index : TimeIndex.TimeIndex
  pub deleted_checkpoints : List CheckpointId
  pub deleted_branches : List Text
  pub dirty_checkpoints : List CheckpointId

abbrev pub or_not_found {ℓ} : {A : Type ℓ} → Option A → Result A
or_not_found none = err Error.not_found
or_not_found (some a) = ok a

-- `branches[current_branch]`.
abbrev pub indexed : Option Branch → Result Branch
indexed none = err Error.panic
indexed (some b) = ok b

unfoldable pub current : CheckpointRepo → Result Branch
current repo = indexed (get_elem? repo.branches repo.current_branch)

unfoldable pub update_at : ℕ → (Branch → Branch) → List Branch → List Branch
update_at i change [] = []
update_at zero change (b ∷ bs) = change b ∷ bs
update_at (suc i) change (b ∷ bs) = b ∷ update_at i change bs

unfoldable pub branch_position : List Branch → Text → Option ℕ
branch_position [] name = none
branch_position (b ∷ bs) name =
    let rest = branch_position bs name in
    if text_eq b.name name then some 0 else elim rest [ none ↦ none | some i ↦ some (suc i) ]

-- `add_edge`, whose answer is not used.
abbrev pub linked : CheckpointDag → Option (CheckpointDag × Bool) → CheckpointDag
linked dag none = dag
linked dag (some (dag', accepted)) = dag'

unfoldable pub add_edges :
    CheckpointDag → List CheckpointId → (child : CheckpointId) → CheckpointDag
add_edges dag [] child = dag
add_edges dag (parent ∷ parents) child =
    add_edges (linked dag (add_edge dag parent child)) parents child

abbrev pub stored : CheckpointRepo → Result (Unit {0}) × Store → Result (Unit {0}) × CheckpointRepo
stored repo (r, store) = (r, record repo { storage = some store })

abbrev pub if_stored : Option Store → Write → Action CheckpointRepo (Unit {0})
if_stored none write repo = (ok tt, repo)
if_stored (some store) write repo = stored repo (write store)

-- `if let Some(storage) = &self.storage`.
unfoldable pub on_storage : Write → Action CheckpointRepo (Unit {0})
on_storage write repo = if_stored repo.storage write repo

unfoldable pub store_dag_edges : List CheckpointId → CheckpointId → ℕ → Write
store_dag_edges [] child gen store = (ok tt, store)
store_dag_edges (parent ∷ parents) child gen store =
    let rest = store_dag_edges parents child gen in
    Checkpoints.store_dag_edge parent child gen store >>> rest

-- The edges are written if the child has a generation.
abbrev pub edges_with : Option ℕ → List CheckpointId → CheckpointId → Write
edges_with none parents child store = (ok tt, store)
edges_with (some gen) parents child store = store_dag_edges parents child gen store

unfoldable pub find_branch : CheckpointRepo → Text → Result ℕ
find_branch repo name = or_not_found (branch_position repo.branches name)

unfoldable pub get_branch_head : CheckpointRepo → Text → Action CheckpointRepo CheckpointId
get_branch_head repo name s = (find_branch repo name, s) >>>= λ i s.
    (indexed (get_elem? repo.branches i), s) >>>= λ b s. (ok b.head, s)

unfoldable pub has_branch : List Branch → Text → Bool
has_branch branches name = elim (branch_position branches name) [ none ↦ false | some i ↦ true ]

-- `store_branch`, then `push`.
unfoldable pub add_branch : Branch → Action CheckpointRepo (Unit {0})
add_branch b repo = on_storage (Checkpoints.store_branch b) repo >>> λ repo.
    (ok tt, record repo { branches = repo.branches ++ (b ∷ []) })

module _ (now : ℕ) where
  -- The changes of a commit before it is persisted: the time index, the graph and the head of the current branch.
  unfoldable pub entered : Checkpoint → CheckpointRepo → CheckpointRepo
  entered cp repo = record repo {
    time_index = insert_at repo.time_index cp.created_at cp.id;
    checkpoint_dag = add_edges (add_node repo.checkpoint_dag cp.id) cp.parents cp.id;
    branches = update_at repo.current_branch (λ b. set_head now b cp.id) repo.branches;
  }

  unfoldable pub persist : Checkpoint → Branch → Action CheckpointRepo (Unit {0})
  persist cp b repo =
      on_storage
        (λ store.
          Checkpoints.store_checkpoint cp store
          >>> edges_with (lookup cp.id repo.checkpoint_dag.generation) cp.parents cp.id
          >>> Checkpoints.update_branch_head now b.name cp.id)
        repo

  -- The last changes of a commit, once it is persisted.
  unfoldable pub kept : Checkpoint → CheckpointRepo → CheckpointRepo
  kept cp repo = record repo {
    dirty_checkpoints = insert_new cp.id repo.dirty_checkpoints;
    checkpoints = insert cp.id cp repo.checkpoints;
  }

  unfoldable pub record_checkpoint : Checkpoint → Branch → Action CheckpointRepo CheckpointId
  record_checkpoint cp b repo = persist cp b (entered cp repo) >>> λ repo. (ok cp.id, kept cp repo)

  module _ (blake3 : Bytes → ℕ) where
    -- The comparison with the head, and the commit where they differ.
    abbrev pub commit_unless :
        Bool
        → List SnapshotId
        → (message author : Text) → Branch
        → Action CheckpointRepo CheckpointId
    commit_unless true snapshot_ids message author b repo = (err Error.checkpoint, repo)
    commit_unless false snapshot_ids message author b repo =
        record_checkpoint
          (checkpoint blake3 now snapshot_ids (b.head ∷ []) (metadata_of author message)) b repo

    unfoldable pub commit :
        List SnapshotId → (message author : Text) → Action CheckpointRepo CheckpointId
    commit snapshot_ids message author repo =
        if is_empty_list snapshot_ids
        then (err Error.checkpoint, repo)
        else ((current repo, repo) >>>= λ b repo.
            (or_not_found (lookup b.head repo.checkpoints), repo) >>>= λ current_cp repo.
            commit_unless (text_eq current_cp.baseline_snapshots snapshot_ids) snapshot_ids message
              author b repo)

    unfoldable pub commit_single :
        SnapshotId → (message author : Text) → Action CheckpointRepo CheckpointId
    commit_single snapshot_id message author = commit (snapshot_id ∷ []) message author

    unfoldable pub commit_allow_empty :
        List SnapshotId → (message author : Text) → Action CheckpointRepo CheckpointId
    commit_allow_empty snapshot_ids message author repo = (current repo, repo) >>>= λ b repo.
        record_checkpoint
          (checkpoint blake3 now snapshot_ids (b.head ∷ []) (metadata_of author message)) b repo

    unfoldable pub merge_branches :
        (source_branch : Text)
        → List SnapshotId
        → (message author : Text) → Action CheckpointRepo CheckpointId
    merge_branches source_branch snapshot_ids message author repo =
        if is_empty_list snapshot_ids
        then (err Error.checkpoint, repo)
        else (get_branch_head repo source_branch repo >>>= λ source_head repo.
            (current repo, repo) >>>= λ b repo.
            record_checkpoint
              (checkpoint blake3 now snapshot_ids (b.head ∷ source_head ∷ [])
                (metadata_of author message))
              b repo)

    unfoldable pub create_root_checkpoint : List SnapshotId → Checkpoint × Branch
    create_root_checkpoint initial_snapshots =
        let root =
          checkpoint blake3 now initial_snapshots []
            (metadata_of (codes "system") (codes "root checkpoint")) in
        (root, branch now (codes "main") root.id)

    abbrev pub repo_of : Checkpoint × Branch → CheckpointRepo
    repo_of (root, main_branch) = record {
      branches = main_branch ∷ [];
      current_branch = 0;
      checkpoint_dag = add_node Dag.new root.id;
      checkpoints = (root.id, root) ∷ [];
      snapshots = [];
      storage = none;
      time_index = insert_at TimeIndex.empty root.created_at root.id;
      deleted_checkpoints = [];
      deleted_branches = [];
      dirty_checkpoints = [];
    }

    unfoldable pub new : List SnapshotId → CheckpointRepo
    new initial_snapshots = repo_of (create_root_checkpoint initial_snapshots)

    unfoldable pub new_single : SnapshotId → CheckpointRepo
    new_single initial_snapshot = new (initial_snapshot ∷ [])

  unfoldable pub create_branch : Text → Action CheckpointRepo (Unit {0})
  create_branch name repo =
      if has_branch repo.branches name
      then (err Error.checkpoint, repo)
      else ((current repo, repo) >>>= λ b repo. add_branch (branch now name b.head) repo)

  unfoldable pub create_branch_from : Text → CheckpointId → Action CheckpointRepo (Unit {0})
  create_branch_from name from_checkpoint repo =
      (or_not_found (lookup from_checkpoint repo.checkpoints), repo) >>>= λ cp repo.
      if has_branch repo.branches name
      then (err Error.checkpoint, repo)
      else add_branch (branch now name from_checkpoint) repo

-- The index is changed before the name is stored.
unfoldable pub switch_branch : Text → Action CheckpointRepo CheckpointId
switch_branch name repo = (find_branch repo name, repo) >>>= λ i repo.
    on_storage (Checkpoints.store_metadata (codes "current_branch") name)
      (record repo { current_branch = i })
    >>> λ repo. (indexed (get_elem? repo.branches i), repo) >>>= λ b repo. (ok b.head, repo)

abbrev pub remove_index : ℕ → List Branch → List Branch
remove_index i [] = []
remove_index zero (b ∷ bs) = bs
remove_index (suc i) (b ∷ bs) = b ∷ remove_index i bs

abbrev pub deleted_if_memory : Option Store → Text → List Text → List Text
deleted_if_memory none name names = name ∷ names
deleted_if_memory (some store) name names = names

-- The index of the current branch is left as it is.
unfoldable pub remove_branch : Text → Action CheckpointRepo (Unit {0})
remove_branch name repo = (find_branch repo name, repo) >>>= λ i repo.
    on_storage (Checkpoints.delete_branch name) (record repo {
      branches = remove_index i repo.branches;
      deleted_branches = deleted_if_memory repo.storage name repo.deleted_branches;
    })
