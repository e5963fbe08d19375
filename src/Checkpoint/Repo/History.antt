-- ===== src/Checkpoint/Repo/History.antt =====
-- The history of a `CheckpointRepo` (src/checkpoint/repo.rs): the log, the ancestry and the removal of checkpoints. Each `while`
-- loop over a queue takes fuel; `none` means that the fuel ran out.
pub mod Chain
pub mod Log
use layertwine.Prelude.{
  ℕ, zero, suc, ◌+◌, ◌≡◌, Bool, true, false, List, [], ◌∷◌, ◌++◌, Option, none, some, Text, length,
  leb, get_last?, ◌==◌, if◌then◌else◌, Result, ok, err, Error, Action, ◌>>=◌, ◌>>>=◌, ◌>>>◌, lookup,
  insert, remove, insert_new, contains,
}
use layertwine.Core.Partition.{SnapshotId}
use layertwine.Core.Snapshots.{Snapshot}
use layertwine.Checkpoint.Dag.{CheckpointId, unvisited, remove_node}
use layertwine.Checkpoint.TimeIndex.{remove_at}
use layertwine.Checkpoint.Types.{Checkpoint}
use layertwine.Storage.Checkpoints
use layertwine.Storage.Checkpoints.{Store}
use layertwine.Checkpoint.Repo.{CheckpointRepo, or_not_found, current, on_storage}

abbrev pub Map : Type 0
Map = List (CheckpointId × Checkpoint)

abbrev pub parents_in : Option Checkpoint → List CheckpointId
parents_in none = []
parents_in (some cp) = cp.parents

-- The parents of a checkpoint of the map; one that is not in it has none.
unfoldable pub parents_of : Map → CheckpointId → List CheckpointId
parents_of checkpoints id = parents_in (lookup id checkpoints)

abbrev pub pushed : Option Checkpoint → List Checkpoint → List Checkpoint
pushed none result = result
pushed (some cp) result = result ++ (cp ∷ [])

-- The loop of `log_from`.
unfoldable pub log_loop :
    Map
    → ℕ
    → (count : ℕ) (queue visited : List CheckpointId) → List Checkpoint
    → Option (List Checkpoint)
log_loop checkpoints fuel count [] visited result = some result
log_loop checkpoints zero count (id ∷ queue) visited result = none
log_loop checkpoints (suc fuel) count (id ∷ queue) visited result =
    elim (leb count (length result)) [
      | true ↦ some result
      | false ↦ elim (contains visited id) [
        | true ↦ log_loop checkpoints fuel count queue visited result
        | false ↦
            log_loop checkpoints fuel count
              (queue ++ unvisited (id ∷ visited) (parents_of checkpoints id)) (id ∷ visited)
              (pushed (lookup id checkpoints) result)
      ]
    ]

-- The loop of `get_ancestors_to`, which ends where the target is found in the map.
abbrev pub reached : Option Checkpoint → Bool → Bool
reached none same = false
reached (some cp) same = same

unfoldable pub ancestors_loop :
    Map
    → ℕ
    → (target : CheckpointId) (queue visited : List CheckpointId) → List Checkpoint
    → Option (List Checkpoint)
ancestors_loop checkpoints fuel target [] visited result = some result
ancestors_loop checkpoints zero target (id ∷ queue) visited result = none
ancestors_loop checkpoints (suc fuel) target (id ∷ queue) visited result =
    elim (contains visited id) [
      | true ↦ ancestors_loop checkpoints fuel target queue visited result
      | false ↦ elim (reached (lookup id checkpoints) (id == target)) [
        | true ↦ some (pushed (lookup id checkpoints) result)
        | false ↦
            ancestors_loop checkpoints fuel target
              (queue ++ unvisited (id ∷ visited) (parents_of checkpoints id)) (id ∷ visited)
              (pushed (lookup id checkpoints) result)
      ]
    ]

-- The two nested loops of `get_ancestry_chain` take the ids in the order of one queue.
unfoldable pub chain_loop :
    Map → ℕ → (queue visited result : List CheckpointId) → Option (List CheckpointId)
chain_loop checkpoints fuel [] visited result = some result
chain_loop checkpoints zero (id ∷ queue) visited result = none
chain_loop checkpoints (suc fuel) (id ∷ queue) visited result = elim (contains visited id) [
  | true ↦ chain_loop checkpoints fuel queue visited result
  | false ↦
      chain_loop checkpoints fuel (queue ++ unvisited (id ∷ visited) (parents_of checkpoints id))
        (id ∷ visited) (id ∷ result)
]

-- Each id is pushed for a start or for a parent of a checkpoint.
unfoldable pub parent_count : Map → ℕ
parent_count [] = 0
parent_count ((id, cp) ∷ checkpoints) = length cp.parents + parent_count checkpoints

unfoldable pub loop_fuel : Map → ℕ
loop_fuel checkpoints = parent_count checkpoints + 1

unfoldable pub log_from :
    CheckpointRepo → (start : CheckpointId) (count : ℕ) → Option (List Checkpoint)
log_from repo start count =
    log_loop repo.checkpoints (loop_fuel repo.checkpoints) count (start ∷ []) [] []

unfoldable pub log : CheckpointRepo → (count : ℕ) → Result (Option (List Checkpoint))
log repo count = current repo >>= λ b. ok (log_from repo b.head count)

abbrev pub ends_at : Option Checkpoint → CheckpointId → List Checkpoint → Result (List Checkpoint)
ends_at none target result = err Error.not_found
ends_at (some cp) target result = if cp.id == target then ok result else err Error.not_found

abbrev pub ancestors_found :
    Option (List Checkpoint) → CheckpointId → Option (Result (List Checkpoint))
ancestors_found none target = none
ancestors_found (some result) target = some (ends_at (get_last? result) target result)

unfoldable pub get_ancestors_to :
    CheckpointRepo → (target : CheckpointId) → Result (Option (Result (List Checkpoint)))
get_ancestors_to repo target = current repo >>= λ b. ok (
    ancestors_found
      (ancestors_loop repo.checkpoints (loop_fuel repo.checkpoints) target (b.head ∷ []) [] [])
      target)

unfoldable pub get_ancestry_chain : CheckpointRepo → CheckpointId → Option (List CheckpointId)
get_ancestry_chain repo id =
    chain_loop repo.checkpoints (loop_fuel repo.checkpoints) (id ∷ []) [] []

unfoldable pub get_checkpoint : CheckpointRepo → CheckpointId → Result Checkpoint
get_checkpoint repo id = or_not_found (lookup id repo.checkpoints)

unfoldable pub rollback_to : CheckpointRepo → CheckpointId → Result (List SnapshotId)
rollback_to repo id = get_checkpoint repo id >>= λ cp. ok cp.baseline_snapshots

abbrev pub deleted_if_memory : Option Store → CheckpointId → List CheckpointId → List CheckpointId
deleted_if_memory none id ids = insert_new id ids
deleted_if_memory (some store) id ids = ids

unfoldable pub remove_checkpoint : CheckpointId → Action CheckpointRepo (Unit {0})
remove_checkpoint id repo = (get_checkpoint repo id, repo) >>>= λ cp repo.
    on_storage (λ store. Checkpoints.delete_checkpoint id store >>> Checkpoints.delete_dag_node id)
      (record repo {
        checkpoints = remove id repo.checkpoints;
        time_index = remove_at repo.time_index cp.created_at cp.id;
        deleted_checkpoints = deleted_if_memory repo.storage id repo.deleted_checkpoints;
        checkpoint_dag = remove_node repo.checkpoint_dag id;
      })

abbrev pub snapshot_in : Option Snapshot → Option Store → SnapshotId → Result Snapshot
snapshot_in (some s) storage id = ok s
snapshot_in none (some store) id = Checkpoints.get_snapshot store id
snapshot_in none none id = err Error.not_found

unfoldable pub get_snapshot_by_id : CheckpointRepo → SnapshotId → Result Snapshot
get_snapshot_by_id repo id = snapshot_in (lookup id repo.snapshots) repo.storage id

unfoldable pub cache_snapshot : Snapshot → CheckpointRepo → CheckpointRepo
cache_snapshot s repo = record repo { snapshots = insert s.id s repo.snapshots }

unfoldable pub set_snapshot_source :
    CheckpointId → SnapshotId → (source : Text) → Action CheckpointRepo (Unit {0})
set_snapshot_source id snapshot source repo = (get_checkpoint repo id, repo) >>>= λ cp repo. (
  ok tt,
  record repo {
    checkpoints =
        insert id (record cp { snapshot_sources = insert snapshot source cp.snapshot_sources })
          repo.checkpoints;
    dirty_checkpoints = insert_new id repo.dirty_checkpoints;
  },
)
