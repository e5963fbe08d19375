-- ===== src/Core/Partition.antt =====
-- `Partition` of src/core/partition.rs: a pointer to a snapshot, and the snapshots that it pointed to.
pub mod History
use layertwine.Prelude.{
  ℕ, zero, suc, ◌+◌, ◌-◌, Bool, true, false, List, [], ◌∷◌, ◌++◌, Option, none, some, Text, length,
  take, get_elem?, ltb, ◌==◌, if◌then◌else◌,
}
use layertwine.Core.Names.{PartitionType}

abbrev pub SnapshotId : Type 0
SnapshotId = ℕ

abbrev pub PartitionId : Type 0
PartitionId = ℕ

pub record Partition : Type 0 where
  pub id : PartitionId
  pub name : Text
  pub current_snapshot : SnapshotId
  pub history : List SnapshotId
  pub partition_type : PartitionType

-- The fresh id of `Uuid::now_v7` is an argument.
unfoldable pub new : PartitionId → Text → PartitionType → SnapshotId → Partition
new id name partition_type initial = record {
  id = id;
  name = name;
  current_snapshot = initial;
  history = initial ∷ [];
  partition_type = partition_type;
}

unfoldable pub advance : Partition → SnapshotId → Partition
advance p s = record p { current_snapshot = s; history = p.history ++ (s ∷ []) }

shift_some : Option ℕ → Option ℕ
shift_some none = none
shift_some (some i) = some (suc i)

-- `history.iter().position(|s| s == target)`.
unfoldable pub position : List SnapshotId → SnapshotId → Option ℕ
unfolding shift_some
position [] target = none
position (s ∷ history) target =
    let rest = shift_some (position history target) in if s == target then some 0 else rest

rollback_at : Option ℕ → Partition → SnapshotId → Partition × Bool
rollback_at none p target = (p, false)
rollback_at (some pos) p target =
    (record p { current_snapshot = target; history = take (pos + 1) p.history }, true)

unfoldable pub rollback_to : Partition → SnapshotId → Partition × Bool
unfolding rollback_at
rollback_to p target = rollback_at (position p.history target) p target

rollback_prev : Option SnapshotId → Partition → Partition × Option SnapshotId
rollback_prev none p = (p, none)
rollback_prev (some prev) p = (
  record p { current_snapshot = prev; history = take (length p.history - 1) p.history },
  some prev,
)

unfoldable pub rollback_one : Partition → Partition × Option SnapshotId
unfolding rollback_prev
rollback_one p =
    if ltb 1 (length p.history)
    then rollback_prev (get_elem? p.history (length p.history - 2)) p
    else (p, none)
