-- ===== src/Tests/Layers.antt =====
-- Runs of the partition table and of the flows between the layers, of src/storage/sqlite and src/layered.
use layertwine.Prelude.{
  ℕ, ◌+◌, ◌*◌, ◌^◌, ◌≡◌, ◌≢◌, refl, false, List, [], ◌∷◌, none, some, Text, codes, length, lookup,
  arith, ok,
}
use layertwine.Core.Names.{
  LayerType, PartitionType, staged, partition_type_matches_layer, layer_is, from_name, to_layer,
  layer_eq, index, first_some, map_some, strip_prefix,
}
use layertwine.Core.Partition.{Partition, PartitionId, SnapshotId}
use layertwine.Core.Snapshots.{Snapshot, SnapshotCompression}
use layertwine.Core.Partition.History.{IsCurrent}
use layertwine.Storage.Partitions.{
  PartitionTable, find, find_name, get_partition, create_partition, update_pointer, update, pointed,
  baseline,
}
use layertwine.Layered.Ensure.{
  ensure, is_pending, staged_partition_id, approval_agent_partition_id, reject_approval,
}
use layertwine.Layered.Ensure.Approval.{reject_approval_lem}
use layertwine.Layered.Transition.{
  check_rollback_valid, rollback_allowed, rollback_partition, SnapshotTable, get_snapshot,
  find_parent, rollback_staged_to_layer,
}
use layertwine.Layered.Transition.Finds.{AreStored, rollback_staged_to_layer-finds}
use layertwine.Layered.Transition.Flows.{Flows, rollback-Flows}
use layertwine.Layered.Transition.Pointers.{
  rollback_partition_twice, IsParentOf, rollback_staged_to_layer_lem,
}

abbrev staged_row : Partition
staged_row = record {
  id = staged_partition_id;
  name = codes "staged";
  current_snapshot = 12;
  history = 10 ∷ 12 ∷ [];
  partition_type = PartitionType.staged;
}

-- The id that the crate gives for a namespace and a name, here just the length of the name.
abbrev some_uuid : ℕ → Text → PartitionId
some_uuid namespace name = namespace + length name

abbrev approval_row : Partition
approval_row = record {
  id = 3 * 16 ^ 31 + 2;
  name = codes "approval/a1";
  current_snapshot = 11;
  history = 10 ∷ 11 ∷ [];
  partition_type = PartitionType.approval (codes "a1");
}

abbrev staged_table : PartitionTable
staged_table = staged_row ∷ []

abbrev both_table : PartitionTable
both_table = staged_row ∷ approval_row ∷ []

created : create_partition staged_table approval_row ≡ ok both_table
unfolding create_partition find find_name
created = refl

staged_found : find both_table staged_partition_id ≡ some staged_row
unfolding find
staged_found = refl

approval_found :
    find both_table (approval_agent_partition_id some_uuid (codes "a1")) ≡ some approval_row
unfolding find approval_agent_partition_id
approval_found = refl

rollback_partition_twice_example :
    (prev : SnapshotId) × (after last : PartitionTable) × (rollback_partition both_table
        staged_partition_id
      ≡ ok (after, prev))
    × (rollback_partition after staged_partition_id ≡ ok (last, staged_row.current_snapshot))
    × (find last staged_partition_id
        ≡ some (pointed staged_row.current_snapshot (pointed prev staged_row)))
rollback_partition_twice_example =
    rollback_partition_twice both_table staged_partition_id staged_row staged_found (omega arith)
      refl

reject_approval_lem_example :
    (after : PartitionTable) × (reject_approval some_uuid both_table (codes "a1") ≡ ok (after, 10))
    × (find after (approval_agent_partition_id some_uuid (codes "a1"))
        ≡ some (baseline 10 approval_row))
    × (is_pending (baseline 10 approval_row) ≡ false)
    × IsCurrent (baseline 10 approval_row)
    × ((j : PartitionId)
        → approval_agent_partition_id some_uuid (codes "a1") ≢ j
        → find after j ≡ find both_table j)
reject_approval_lem_example =
    reject_approval_lem some_uuid both_table (codes "a1") approval_row 10 approval_found refl

ensured : ensure staged_table approval_row ≡ ok (both_table, approval_row)
unfolding ensure get_partition create_partition find find_name
ensured = refl

allowed : check_rollback_valid staged LayerType.approval ≡ ok tt
unfolding check_rollback_valid rollback_allowed
allowed = refl

rollback-Flows_example : Flows LayerType.approval staged × ¬ Flows staged LayerType.approval
rollback-Flows_example = rollback-Flows staged LayerType.approval allowed

-- A snapshot of some file.
abbrev taken : List SnapshotId → Text → Snapshot
taken parents partition_type = record {
  id = 0;
  file = record { file_path = codes "a.rs"; base_hash = 1 };
  deltas = [];
  parents = parents;
  partition_type = partition_type;
  created_at = 5;
  has_conflicts = false;
  content = none;
  source = [];
  compression = SnapshotCompression.uncompressed;
}

-- Snapshot 12 of staged was merged from 11, a snapshot of an agent's approval.
abbrev snapshots : SnapshotTable
snapshots =
    (12, taken (10 ∷ 11 ∷ []) (codes "staged"))
    ∷ (11, taken (10 ∷ []) (codes "approval/a1"))
    ∷ (10, taken ([]) ([]))
    ∷ []

abbrev back_table : PartitionTable
back_table =
    record staged_row { current_snapshot = 11; history = 10 ∷ 12 ∷ 11 ∷ [] } ∷ approval_row ∷ []

rolled_back : rollback_staged_to_layer snapshots both_table LayerType.approval ≡ ok (back_table, 11)
unfolding rollback_staged_to_layer get_partition find get_snapshot lookup find_parent update_pointer
    update pointed partition_type_matches_layer layer_is from_name strip_prefix first_some map_some
    layer_eq index to_layer
rolled_back = refl

rollback_staged_to_layer_lem_example :
    (p : Partition) × (s : Snapshot) × (find both_table staged_partition_id ≡ some p)
    × (get_snapshot snapshots p.current_snapshot ≡ ok s)
    × IsParentOf snapshots LayerType.approval s.parents 11
    × (find back_table staged_partition_id ≡ some (pointed 11 p))
    × ((j : PartitionId) → staged_partition_id ≢ j → find back_table j ≡ find both_table j)
rollback_staged_to_layer_lem_example =
    rollback_staged_to_layer_lem snapshots both_table back_table LayerType.approval 11 rolled_back

parents_stored : AreStored snapshots (10 ∷ 11 ∷ [])
unfolding get_snapshot lookup
parents_stored = ((taken ([]) ([]), refl), ((taken (10 ∷ []) (codes "approval/a1"), refl), tt))

approval_parent : IsParentOf snapshots LayerType.approval (10 ∷ 11 ∷ []) 11
unfolding get_snapshot lookup partition_type_matches_layer layer_is from_name strip_prefix
    first_some map_some layer_eq index to_layer
approval_parent = (refl, taken (10 ∷ []) (codes "approval/a1"), refl, refl)

abbrev staged_snapshot : Snapshot
staged_snapshot = taken (10 ∷ 11 ∷ []) (codes "staged")

staged_stored : get_snapshot snapshots 12 ≡ ok staged_snapshot
unfolding get_snapshot lookup
staged_stored = refl

rollback_staged_to_layer-finds_example :
    (after : PartitionTable) × (q : SnapshotId) × (rollback_staged_to_layer snapshots both_table
        LayerType.approval
      ≡ ok (after, q))
rollback_staged_to_layer-finds_example =
    rollback_staged_to_layer-finds snapshots both_table LayerType.approval staged_row
      staged_snapshot 11 staged_found staged_stored parents_stored approval_parent
