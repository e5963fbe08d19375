-- ===== src/Layered/Ensure.antt =====
-- The partitions of the layers: src/layered/{manual,agent,approval,integrated,staged}.rs, where each layer gets or
-- creates its own. `uuid_v5` stands for `Uuid::new_v5` of the uuid crate; an id is the number of `from_u128`.
pub mod Approval
use layertwine.Prelude.{
  ℕ, ◌*◌, ◌^◌, ◌≡◌, Bool, true, false, List, [], ◌∷◌, ◌++◌, Option, none, some, Text, codes, head?,
  length, ltb, if◌then◌else◌, Result, ok, err, Error, ◌>>=◌,
}
use layertwine.Core.Names.{PartitionType}
use layertwine.Core.Partition.{Partition, PartitionId, SnapshotId}
use layertwine.Storage.Partitions.{
  PartitionTable, get_partition, create_partition, update_pointer, reset_partition_to_baseline,
  list_partitions,
}

-- A partition as every layer makes it, with its first snapshot as its whole history.
abbrev pub started : PartitionId → Text → PartitionType → SnapshotId → Partition
started id name partition_type initial = record {
  id = id;
  name = name;
  current_snapshot = initial;
  history = initial ∷ [];
  partition_type = partition_type;
}

abbrev pub got : Result Partition → PartitionTable → Partition → Result (PartitionTable × Partition)
got (ok there) table p = ok (table, there)
got (err e) table p = create_partition table p >>= λ after. ok (after, p)

-- `match get_partition(&pid) { Ok(p) => Ok(p), Err(_) => create }`, the body of each `ensure_…`.
unfoldable pub ensure : PartitionTable → Partition → Result (PartitionTable × Partition)
ensure table p = got (get_partition table p.id) table p

abbrev pub manual_partition_id : PartitionId
manual_partition_id = 1

abbrev pub staged_partition_id : PartitionId
staged_partition_id = 6 * 16 ^ 31

unfoldable pub ensure_manual_partition :
    PartitionTable → SnapshotId → Result (PartitionTable × Partition)
ensure_manual_partition table initial =
    ensure table (started manual_partition_id (codes "manual_edit") PartitionType.manual initial)

unfoldable pub ensure_staged_partition :
    PartitionTable → SnapshotId → Result (PartitionTable × Partition)
ensure_staged_partition table initial =
    ensure table (started staged_partition_id (codes "staged") PartitionType.staged initial)

-- `reset_staged`: a pointer move like any other.
unfoldable pub reset_staged : PartitionTable → SnapshotId → Result PartitionTable
reset_staged table base = update_pointer table staged_partition_id base

abbrev pub is_approval : PartitionType → Bool
is_approval (PartitionType.approval id) = true
is_approval other = false

unfoldable pub approvals : List Partition → List Partition
approvals [] = []
approvals (p ∷ ps) =
    let rest = approvals ps in if is_approval p.partition_type then p ∷ rest else rest

unfoldable pub list_approval_partitions : PartitionTable → List Partition
list_approval_partitions table = approvals (list_partitions table)

abbrev pub is_pending : Partition → Bool
is_pending p = ltb 1 (length p.history)

unfoldable pub pending : List Partition → List Partition
pending [] = []
pending (p ∷ ps) = let rest = pending ps in if is_pending p then p ∷ rest else rest

unfoldable pub list_pending_approvals : PartitionTable → List Partition
list_pending_approvals table = pending (list_approval_partitions table)

-- `.first().ok_or_else(…)` on a history.
abbrev pub first_or : Error → Option SnapshotId → Result SnapshotId
first_or e none = err e
first_or e (some first) = ok first

-- `.map_err(|_| NotFound)`.
abbrev pub or_not_found {ℓ} : {A : Type ℓ} → Result A → Result A
or_not_found (ok a) = ok a
or_not_found (err e) = err Error.not_found

module _ (uuid_v5 : ℕ → Text → PartitionId) where
  unfoldable pub agent_partition_id : Text → PartitionId
  agent_partition_id agent_id = uuid_v5 (2 * 16 ^ 31) agent_id

  unfoldable pub approval_agent_partition_id : Text → PartitionId
  approval_agent_partition_id agent_id = uuid_v5 (3 * 16 ^ 31) agent_id

  unfoldable pub integrated_partition_id : Text → PartitionId
  integrated_partition_id name = uuid_v5 (4 * 16 ^ 31) name

  unfoldable pub ensure_agent_partition :
      PartitionTable → Text → SnapshotId → Result (PartitionTable × Partition)
  ensure_agent_partition table agent_id initial = ensure table (
      started (agent_partition_id agent_id) (codes "agent_edit/" ++ agent_id)
        (PartitionType.agent agent_id) initial)

  unfoldable pub ensure_approval_agent_partition :
      PartitionTable → Text → SnapshotId → Result (PartitionTable × Partition)
  ensure_approval_agent_partition table agent_id initial = ensure table (
      started (approval_agent_partition_id agent_id) (codes "approval/" ++ agent_id)
        (PartitionType.approval agent_id) initial)

  unfoldable pub ensure_integrated_partition :
      PartitionTable → Text → SnapshotId → Result (PartitionTable × Partition)
  ensure_integrated_partition table name initial = ensure table (
      started (integrated_partition_id name) (codes "integrated/" ++ name)
        (PartitionType.integrated name) initial)

  unfoldable pub create_feature_branch :
      PartitionTable → Text → SnapshotId → Result (PartitionTable × Partition)
  create_feature_branch table name base =
      let p =
        started (integrated_partition_id name) (codes "feature/" ++ name)
          (PartitionType.integrated name) base in
      create_partition table p >>= λ after. ok (after, p)

  unfoldable pub reject_approval : PartitionTable → Text → Result (PartitionTable × SnapshotId)
  reject_approval table agent_id =
      let pid = approval_agent_partition_id agent_id in
      or_not_found (get_partition table pid) >>= λ p.
      first_or Error.state_machine (head? p.history) >>= λ base_snapshot.
      reset_partition_to_baseline table pid >>= λ after. ok (after, base_snapshot)
