-- ===== src/Layered/Transition/Finds.antt =====
-- When `rollback_staged_to_layer` of src/layered/transition.rs finds a parent.
use layertwine.Prelude.{
  ◌≡◌, refl, sym, ap, ◌∙◌, Bool, true, false, List, [], ◌∷◌, some, if◌then◌else◌, ◌==◌, ==_iff, All,
  contains, Bool-cases, inl, inr, arith, ok, ◌>>=◌,
}
use layertwine.Core.Names.{LayerType, partition_type_matches_layer}
use layertwine.Core.Partition.{Partition, SnapshotId}
use layertwine.Storage.Partitions.{PartitionTable, find, get_partition}
use layertwine.Storage.Partitions.Laws.{update_pointer_lem}
use layertwine.Layered.Ensure.{staged_partition_id}
use layertwine.Core.Snapshots.{Snapshot}
use layertwine.Layered.Transition.{
  SnapshotTable, get_snapshot, find_parent, rollback_staged_to_layer,
}
use layertwine.Layered.Transition.Pointers.{IsParentOf}

-- Every snapshot of a list is in the table.
abbrev pub AreStored : SnapshotTable → List SnapshotId → Type 0
AreStored snapshots = All (λ id. (s : Snapshot) × (get_snapshot snapshots id ≡ ok s))

-- A parent that is of the layer is found there, and one that is not leaves the search to the rest.
find_parent-finds :
    (snapshots : SnapshotTable) (target : LayerType) (parents : List SnapshotId) (id : SnapshotId)
    → AreStored snapshots parents
    → IsParentOf snapshots target parents id
    → (q : SnapshotId) × (find_parent snapshots target parents ≡ ok q)
unfolding find_parent
find_parent-finds snapshots target [] id st (inside, s, stored, m) = absurd (cc)
find_parent-finds snapshots target (q ∷ parents) id ((sq, here), rest) (inside, s, stored, m) =
    go (partition_type_matches_layer sq.partition_type target) refl
      (λ later. find_parent-finds snapshots target parents id rest (later, s, stored, m))
  where
    Found : Type 0
    Found =
        (r : SnapshotId) × ((get_snapshot snapshots q >>= λ parent.
        if partition_type_matches_layer parent.partition_type target
        then ok q
        else find_parent snapshots target parents)
          ≡ ok r)

    go :
        (b : Bool)
        → partition_type_matches_layer sq.partition_type target ≡ b
        → (contains parents id ≡ true
            → (r : SnapshotId) × (find_parent snapshots target parents ≡ ok r))
        → Found
    go true e later = (q, rw (here, e) refl)
    go false e later = elim (Bool-cases (q == id)) [
      | inl same ↦
          let z : q ≡ id = (==_iff q id).0 same in
          let both : ok sq ≡ ok s = sym here ∙ ap (get_snapshot snapshots) z ∙ stored in
          let same_s : sq ≡ s = cc in
          let wrong : false ≡ true =
            sym e
            ∙ ap (λ (x : Snapshot). partition_type_matches_layer x.partition_type target) same_s
            ∙ m in
          absurd (cc)
      | inr other ↦ let (r, found) = later (ground arith) in (r, rw (here, e) found)
    ]

-- Where staged and its snapshot are there, all parents of that snapshot are stored, and one of them is of the
-- requested layer, the rollback succeeds.
pub rollback_staged_to_layer-finds :
    (snapshots : SnapshotTable) (table : PartitionTable) (target : LayerType) (p : Partition)
    (s : Snapshot) (id : SnapshotId)
    → find table staged_partition_id ≡ some p
    → get_snapshot snapshots p.current_snapshot ≡ ok s
    → AreStored snapshots s.parents
    → IsParentOf snapshots target s.parents id
    → (after : PartitionTable) × (q : SnapshotId) × (rollback_staged_to_layer snapshots table target
        ≡ ok (after, q))
unfolding rollback_staged_to_layer get_partition
rollback_staged_to_layer-finds snapshots table target p s id there stored all parent =
    let (q, found) = find_parent-finds snapshots target s.parents id all parent in
    let (after, moved, pointed', others) = update_pointer_lem table staged_partition_id p q there in
    (after, q, rw (there, stored, found, moved) refl)
