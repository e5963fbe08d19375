-- ===== src/Layered/Transition.antt =====
-- The flows between the layers: src/layered/transition.rs, and `discard_agent_edit` of src/layered/agent.rs.
pub mod Flows
pub mod Pointers
pub mod Finds
use layertwine.Prelude.{
  ℕ, ◌-◌, ◌≡◌, Bool, true, false, List, [], ◌∷◌, Option, none, some, Text, head?, get_elem?, length,
  leb, if◌then◌else◌, lookup, Result, ok, err, Error, ◌>>=◌, ◌>>◌,
}
use layertwine.Core.Names.{
  LayerType, manual_edit, agent_edit, approval, integrated, unified, staged,
  partition_type_matches_layer,
}
use layertwine.Core.Partition.{Partition, PartitionId, SnapshotId}
use layertwine.Core.Snapshots.{Snapshot}
use layertwine.Storage.Partitions.{PartitionTable, get_partition, update_pointer}
use layertwine.Layered.Ensure.{
  or_not_found, first_or, staged_partition_id, agent_partition_id, reject_approval,
}

unfoldable pub forward_allowed : LayerType → LayerType → Bool
forward_allowed manual_edit staged = true
forward_allowed agent_edit approval = true
forward_allowed approval integrated = true
forward_allowed integrated staged = true
forward_allowed from to = false

unfoldable pub check_forward_valid : LayerType → LayerType → Result (Unit {0})
check_forward_valid from to = if forward_allowed from to then ok tt else err Error.state_machine

unfoldable pub rollback_allowed : LayerType → LayerType → Bool
rollback_allowed staged manual_edit = true
rollback_allowed staged agent_edit = true
rollback_allowed staged approval = true
rollback_allowed approval agent_edit = true
rollback_allowed from to = false

unfoldable pub check_rollback_valid : LayerType → LayerType → Result (Unit {0})
check_rollback_valid from to = if rollback_allowed from to then ok tt else err Error.state_machine

unfoldable pub migrate_between_partitions :
    PartitionTable → (from to : PartitionId) → Result PartitionTable
migrate_between_partitions table from to =
    or_not_found (get_partition table from) >>= λ p. update_pointer table to p.current_snapshot

-- `history[i]`.
abbrev pub at : Option SnapshotId → Result SnapshotId
at none = err Error.panic
at (some s) = ok s

unfoldable pub rollback_partition :
    PartitionTable → PartitionId → Result (PartitionTable × SnapshotId)
rollback_partition table id = or_not_found (get_partition table id) >>= λ p.
    if leb (length p.history) 1
    then err Error.state_machine
    else (at (get_elem? p.history (length p.history - 2)) >>= λ prev_id.
        update_pointer table id prev_id >>= λ after. ok (after, prev_id))

abbrev pub SnapshotTable : Type 0
SnapshotTable = List (SnapshotId × Snapshot)

abbrev pub snapshot_row : Option Snapshot → Result Snapshot
snapshot_row none = err Error.storage
snapshot_row (some s) = ok s

unfoldable pub get_snapshot : SnapshotTable → SnapshotId → Result Snapshot
get_snapshot snapshots id = snapshot_row (lookup id snapshots)

-- The loop over the parents: the first whose type is of the layer.
unfoldable pub find_parent : SnapshotTable → LayerType → List SnapshotId → Result SnapshotId
find_parent snapshots target [] = err Error.not_found
find_parent snapshots target (parent_id ∷ parents) =
    let rest = find_parent snapshots target parents in
    get_snapshot snapshots parent_id >>= λ parent.
    if partition_type_matches_layer parent.partition_type target then ok parent_id else rest

unfoldable pub rollback_staged_to_layer :
    SnapshotTable → PartitionTable → LayerType → Result (PartitionTable × SnapshotId)
rollback_staged_to_layer snapshots table target =
    or_not_found (get_partition table staged_partition_id) >>= λ p.
    get_snapshot snapshots p.current_snapshot >>= λ s.
    find_parent snapshots target s.parents >>= λ parent_id.
    update_pointer table staged_partition_id parent_id >>= λ after. ok (after, parent_id)

pub data RollbackTransition : Type 0 where
  staged_to_manual staged_to_approval staged_to_agent_raw approval_to_agent_raw : RollbackTransition

abbrev pub param : Option Text → Result Text
param none = err Error.state_machine
param (some p) = ok p

module _ (uuid_v5 : ℕ → Text → PartitionId) where
  unfoldable pub execute_rollback :
      SnapshotTable
      → PartitionTable
      → RollbackTransition
      → List Text
      → Result (PartitionTable × SnapshotId)
  execute_rollback snapshots table staged_to_manual params =
      check_rollback_valid staged manual_edit
      >> rollback_staged_to_layer snapshots table manual_edit
  execute_rollback snapshots table staged_to_approval params =
      check_rollback_valid staged approval >> rollback_staged_to_layer snapshots table approval
  execute_rollback snapshots table staged_to_agent_raw params =
      check_rollback_valid staged agent_edit >> rollback_staged_to_layer snapshots table agent_edit
  execute_rollback snapshots table approval_to_agent_raw params =
      check_rollback_valid approval agent_edit
      >> (param (head? params) >>= λ agent_id. reject_approval uuid_v5 table agent_id)

  unfoldable pub discard_agent_edit : SnapshotTable → PartitionTable → Text → Result PartitionTable
  discard_agent_edit snapshots table agent_id =
      let pid = agent_partition_id uuid_v5 agent_id in
      or_not_found (get_partition table pid) >>= λ p.
      get_snapshot snapshots p.current_snapshot >>= λ s.
      first_or Error.state_machine (head? s.parents) >>= λ parent_id.
      update_pointer table pid parent_id
