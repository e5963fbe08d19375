-- ===== src/Checkpoint/Repo/Load.antt =====
-- How `CheckpointRepo` (src/checkpoint/repo.rs) is read from its storage and written to it.
use layertwine.Prelude.{
  ℕ, List, [], ◌∷◌, ◌++◌, Option, none, some, Text, codes, if◌then◌else◌, ok, Action, ◌>>>=◌, ◌>>>◌,
  lookup, insert, get_or_default,
}
use layertwine.Core.Ids.{Bytes}
use layertwine.Core.Partition.{SnapshotId}
use layertwine.Core.Snapshots.{Snapshot}
use layertwine.Checkpoint.Dag
use layertwine.Checkpoint.Dag.{
  CheckpointDag, CheckpointId, add_node, add_edge_unchecked, set_generation, has_node,
}
use layertwine.Checkpoint.TimeIndex
use layertwine.Checkpoint.TimeIndex.{from_checkpoints}
use layertwine.Checkpoint.Types.{Checkpoint, Branch}
use layertwine.Storage.Checkpoints
use layertwine.Storage.Checkpoints.{Store, Write, find_snapshot}
use layertwine.Checkpoint.Repo.{
  CheckpointRepo, branch_position, create_root_checkpoint, edges_with, stored, on_storage, current,
}

unfoldable pub keyed :
    List Checkpoint → List (CheckpointId × Checkpoint) → List (CheckpointId × Checkpoint)
keyed [] checkpoints = checkpoints
keyed (cp ∷ cps) checkpoints = keyed cps (insert cp.id cp checkpoints)

unfoldable pub add_edges_from :
    CheckpointDag → List CheckpointId → (child : CheckpointId) → CheckpointDag
add_edges_from dag [] child = dag
add_edges_from dag (parent ∷ parents) child =
    add_edges_from (add_edge_unchecked dag parent child) parents child

unfoldable pub build_from : CheckpointDag → List (CheckpointId × Checkpoint) → CheckpointDag
build_from dag [] = dag
build_from dag ((id, cp) ∷ checkpoints) =
    build_from (add_edges_from (add_node dag id) cp.parents id) checkpoints

unfoldable pub build_dag_from_checkpoints : List (CheckpointId × Checkpoint) → CheckpointDag
build_dag_from_checkpoints checkpoints = build_from Dag.new checkpoints

unfoldable pub add_edges_to :
    CheckpointDag → (parent : CheckpointId) → List CheckpointId → CheckpointDag
add_edges_to dag parent [] = dag
add_edges_to dag parent (child ∷ children) =
    add_edges_to (add_edge_unchecked dag parent child) parent children

unfoldable pub add_nodes : CheckpointDag → List (CheckpointId × List CheckpointId) → CheckpointDag
add_nodes dag [] = dag
add_nodes dag ((node_id, children) ∷ nodes) =
    add_nodes (add_edges_to (add_node dag node_id) node_id children) nodes

unfoldable pub set_generations : CheckpointDag → List (CheckpointId × ℕ) → CheckpointDag
set_generations dag [] = dag
set_generations dag ((node_id, gen) ∷ generation) =
    set_generations (if has_node dag node_id then set_generation dag node_id gen else dag)
      generation

abbrev pub dag_of :
    List (CheckpointId × List CheckpointId) × List (CheckpointId × ℕ) → CheckpointDag
dag_of (nodes, generation) = set_generations (add_nodes Dag.new nodes) generation

abbrev pub first_head : List Branch → CheckpointId
first_head [] = 0
first_head (b ∷ bs) = b.head

unfoldable pub load_checkpoint_dag :
    Store → List Branch → List (CheckpointId × Checkpoint) → CheckpointDag
load_checkpoint_dag store branches checkpoints =
    if Checkpoints.dag_has_node store (first_head branches)
    then dag_of (Checkpoints.load_dag store)
    else build_dag_from_checkpoints checkpoints

unfoldable pub stamps : List (CheckpointId × Checkpoint) → List TimeIndex.Entry
stamps [] = []
stamps ((id, cp) ∷ checkpoints) = (cp.created_at, cp.id) ∷ stamps checkpoints

abbrev pub cached :
    Option Snapshot → SnapshotId → List (SnapshotId × Snapshot) → List (SnapshotId × Snapshot)
cached none id snapshots = snapshots
cached (some s) id snapshots = insert id s snapshots

unfoldable pub load_snapshots :
    Store → List SnapshotId → List (SnapshotId × Snapshot) → List (SnapshotId × Snapshot)
load_snapshots store [] snapshots = snapshots
load_snapshots store (id ∷ ids) snapshots =
    load_snapshots store ids (cached (find_snapshot store.snapshots id) id snapshots)

unfoldable pub load_all_snapshots :
    Store
    → List (CheckpointId × Checkpoint)
    → List (SnapshotId × Snapshot)
    → List (SnapshotId × Snapshot)
load_all_snapshots store [] snapshots = snapshots
load_all_snapshots store ((id, cp) ∷ checkpoints) snapshots =
    load_all_snapshots store checkpoints (load_snapshots store cp.baseline_snapshots snapshots)

-- The repository that is read, from the checkpoints and branches that were found or made.
unfoldable pub loaded : Store → List (CheckpointId × Checkpoint) → List Branch → CheckpointRepo
loaded store checkpoints branches = record {
  branches = branches;
  current_branch = get_or_default 0 (
      branch_position branches
        (get_or_default (codes "main") (Checkpoints.load_metadata store (codes "current_branch"))));
  checkpoint_dag = load_checkpoint_dag store branches checkpoints;
  checkpoints = checkpoints;
  snapshots = load_all_snapshots store checkpoints [];
  storage = some store;
  time_index = from_checkpoints (stamps checkpoints);
  deleted_checkpoints = [];
  deleted_branches = [];
  dirty_checkpoints = [];
}

-- An empty database is given a root checkpoint and a main branch.
abbrev pub initialized : Checkpoint × Branch → List Branch → Action Store CheckpointRepo
initialized (root, main_branch) branches store =
    Checkpoints.store_checkpoint root store
    >>> Checkpoints.store_branch main_branch
    >>> Checkpoints.store_metadata (codes "current_branch") (codes "main")
    >>> λ store. (ok (loaded store ((root.id, root) ∷ []) (branches ++ (main_branch ∷ []))), store)

abbrev pub load_with :
    (now : ℕ) (blake3 : Bytes → ℕ)
    → List (CheckpointId × Checkpoint)
    → List Branch
    → Action Store CheckpointRepo
load_with now blake3 [] branches store =
    initialized (create_root_checkpoint now blake3 []) branches store
load_with now blake3 (c ∷ checkpoints) branches store =
    (ok (loaded store (c ∷ checkpoints) branches), store)

unfoldable pub load : (now : ℕ) (blake3 : Bytes → ℕ) → Action Store CheckpointRepo
load now blake3 store =
    load_with now blake3 (keyed (Checkpoints.list_checkpoints store) [])
      (Checkpoints.list_branches store) store

unfoldable pub ids_of : List (CheckpointId × Checkpoint) → List CheckpointId
ids_of [] = []
ids_of ((id, cp) ∷ checkpoints) = id ∷ ids_of checkpoints

unfoldable pub attach_storage : Store → CheckpointRepo → CheckpointRepo
attach_storage store repo = record repo {
  dirty_checkpoints = ids_of repo.checkpoints;
  storage = some store;
}

abbrev pub reloaded :
    Option Store → List (CheckpointId × Checkpoint) → List (CheckpointId × Checkpoint)
reloaded none checkpoints = checkpoints
reloaded (some store) checkpoints = keyed (Checkpoints.list_checkpoints store) []

unfoldable pub rebuild_dag : CheckpointRepo → CheckpointRepo
rebuild_dag repo =
    let checkpoints = reloaded repo.storage repo.checkpoints in
    record repo {
      checkpoints = checkpoints;
      checkpoint_dag = build_dag_from_checkpoints checkpoints;
      time_index = from_checkpoints (stamps checkpoints);
    }

abbrev pub store_if : Option Checkpoint → Write
store_if none store = (ok tt, store)
store_if (some cp) store = Checkpoints.store_checkpoint cp store

unfoldable pub sync_checkpoint : CheckpointId → Action CheckpointRepo (Unit {0})
sync_checkpoint id repo = on_storage (store_if (lookup id repo.checkpoints)) repo

abbrev pub sync_one : Option Checkpoint → CheckpointDag → Write
sync_one none dag store = (ok tt, store)
sync_one (some cp) dag store =
    Checkpoints.store_checkpoint cp store
    >>> edges_with (lookup cp.id dag.generation) cp.parents cp.id

unfoldable pub sync_dirty :
    List (CheckpointId × Checkpoint) → CheckpointDag → List CheckpointId → Write
sync_dirty checkpoints dag [] store = (ok tt, store)
sync_dirty checkpoints dag (id ∷ dirty) store =
    let rest = sync_dirty checkpoints dag dirty in
    sync_one (lookup id checkpoints) dag store >>> rest

-- `let _ = …`: an error is dropped.
abbrev pub ignored : Write → Store → Store
ignored write store = (write store).1

unfoldable pub delete_all : List CheckpointId → Store → Store
delete_all [] store = store
delete_all (id ∷ deleted) store =
    delete_all deleted
      (ignored (Checkpoints.delete_dag_node id) (ignored (Checkpoints.delete_checkpoint id) store))

unfoldable pub delete_all_branches : List Text → Store → Store
delete_all_branches [] store = store
delete_all_branches (name ∷ deleted) store =
    delete_all_branches deleted (ignored (Checkpoints.delete_branch name) store)

unfoldable pub store_branches : List Branch → Write
store_branches [] store = (ok tt, store)
store_branches (b ∷ bs) store =
    let rest = store_branches bs in Checkpoints.store_branch b store >>> rest

-- The dirty checkpoints are drained before they are written, so that an error leaves none.
abbrev pub sync_to : Option Store → Action CheckpointRepo (Unit {0})
sync_to none repo = (ok tt, repo)
sync_to (some store) repo =
    stored (record repo { dirty_checkpoints = [] })
      (sync_dirty repo.checkpoints repo.checkpoint_dag repo.dirty_checkpoints store)
    >>> λ synced.
        on_storage
          (λ store.
            store_branches repo.branches (
              delete_all_branches repo.deleted_branches
                (delete_all repo.deleted_checkpoints store)))
          (record synced { deleted_checkpoints = []; deleted_branches = [] })
        >>> λ synced. (current synced, synced) >>>= λ b.
            on_storage (Checkpoints.store_metadata (codes "current_branch") b.name)

unfoldable pub sync_all : Action CheckpointRepo (Unit {0})
sync_all repo = sync_to repo.storage repo
