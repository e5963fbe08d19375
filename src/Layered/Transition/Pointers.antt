-- ===== src/Layered/Transition/Pointers.antt =====
-- What the flows of src/layered/transition.rs do to the pointers and histories of the partitions.
use layertwine.Prelude.{
  ℕ, zero, suc, ◌-◌, ◌<◌, ◌≤◌, ◌≡◌, ◌≢◌, refl, sym, ap, ◌∙◌, Bool, true, false, List, [], ◌∷◌, ◌++◌,
  Option, none, some, length, length-append, leb, get_elem?, if◌then◌else◌, arith, Result, ok, err,
  >>=-eq-ok, contains, ==_refl,
}
use layertwine.Core.Partition.{Partition, PartitionId, SnapshotId}
use layertwine.Core.Partition.History.{IsCurrent, last_but_one}
use layertwine.Storage.Partitions.{
  PartitionTable, find, row, get_partition, update_pointer, pointed,
}
use layertwine.Storage.Partitions.Laws.{update_pointer_lem}
use layertwine.Core.Names.{LayerType, partition_type_matches_layer}
use layertwine.Layered.Ensure.{or_not_found, staged_partition_id}
use layertwine.Core.Snapshots.{Snapshot}
use layertwine.Layered.Transition.{
  rollback_partition, migrate_between_partitions, SnapshotTable, get_snapshot, find_parent,
  rollback_staged_to_layer,
}

get_elem?-some : (xs : List ℕ) (i : ℕ) → i < length xs → (x : ℕ) × (get_elem? xs i ≡ some x)
get_elem?-some [] i h = absurd (omega arith)
get_elem?-some (x ∷ xs) zero h = (x, refl)
get_elem?-some (x ∷ xs) (suc i) h = get_elem?-some xs i (omega arith)

-- A rollback of a partition with a history of two or more: it points to the last but one entry, which is also
-- appended to the history.
pub rollback_partition_lem :
    (table : PartitionTable) (id : PartitionId) (p : Partition) (prev : SnapshotId)
    → find table id ≡ some p
    → 2 ≤ length p.history
    → get_elem? p.history (length p.history - 2) ≡ some prev
    → (after : PartitionTable) × (rollback_partition table id ≡ ok (after, prev))
      × (find after id ≡ some (pointed prev p))
unfolding rollback_partition get_partition
rollback_partition_lem table id p prev h long e =
    let (after, moved, there, rest) = update_pointer_lem table id p prev h in
    let short : leb (length p.history) 1 ≡ false = ground arith in
    (after, rw (h, short, e, moved) refl, there)

-- Two rollbacks of a partition in a row bring it back to the snapshot it pointed to, where it has a history of two or
-- more that ends in that snapshot: both succeed, and the history has grown by two entries.
pub rollback_partition_twice :
    (table : PartitionTable) (id : PartitionId) (p : Partition)
    → find table id ≡ some p
    → 2 ≤ length p.history
    → IsCurrent p
    → (prev : SnapshotId) × (after last : PartitionTable) × (rollback_partition table id
        ≡ ok (after, prev))
      × (rollback_partition after id ≡ ok (last, p.current_snapshot))
      × (find last id ≡ some (pointed p.current_snapshot (pointed prev p)))
unfolding pointed
rollback_partition_twice table id p h long wf =
    let (prev, e) = get_elem?-some p.history (length p.history - 2) (omega arith) in
    let (after, back, there) = rollback_partition_lem table id p prev h long e in
    let size : 2 ≤ length (p.history ++ (prev ∷ [])) =
      omega (arith, length-append p.history (prev ∷ [])) in
    let (last, again, found) =
      rollback_partition_lem after id (pointed prev p) p.current_snapshot there size
        (last_but_one p.history p.current_snapshot prev wf) in
    (prev, after, last, back, again, found)

-- A migration points the target at the snapshot of the source, appends it to the target's history, and leaves the
-- other partitions as they are. Both partitions have to be there.
migrate_between_partitions_lem :
    (table : PartitionTable) (from to : PartitionId) (p q : Partition)
    → find table from ≡ some p
    → find table to ≡ some q
    → (after : PartitionTable) × (migrate_between_partitions table from to ≡ ok after)
      × (find after to ≡ some (pointed p.current_snapshot q))
      × ((j : PartitionId) → to ≢ j → find after j ≡ find table j)
unfolding migrate_between_partitions get_partition
migrate_between_partitions_lem table from to p q f t =
    let (after, moved, there, rest) = update_pointer_lem table to q p.current_snapshot t in
    (after, rw (f, moved) refl, there, rest)

-- A snapshot is one of these parents, is stored, and its type is of the layer.
abbrev pub IsParentOf : SnapshotTable → LayerType → List SnapshotId → SnapshotId → Type 0
IsParentOf snapshots target parents id =
    (contains parents id ≡ true)
    × (s : Snapshot) × (get_snapshot snapshots id ≡ ok s)
    × (partition_type_matches_layer s.partition_type target ≡ true)

find_parent-ok :
    (snapshots : SnapshotTable) (target : LayerType) (parents : List SnapshotId) (id : SnapshotId)
    → find_parent snapshots target parents ≡ ok id
    → IsParentOf snapshots target parents id
unfolding find_parent
find_parent-ok snapshots target [] id h = absurd (cc)
find_parent-ok snapshots target (q ∷ parents) id h =
    let (s, stored, e) = >>=-eq-ok (get_snapshot snapshots q) chosen h in
    go (λ later. find_parent-ok snapshots target parents id later)
      (partition_type_matches_layer s.partition_type target) s stored refl e
  where
    chosen : Snapshot → Result SnapshotId
    chosen s =
        if partition_type_matches_layer s.partition_type target
        then ok q
        else find_parent snapshots target parents

    go :
        (find_parent snapshots target parents ≡ ok id → IsParentOf snapshots target parents id)
        → (b : Bool) (s : Snapshot) → get_snapshot snapshots q ≡ ok s
        → partition_type_matches_layer s.partition_type target ≡ b
        → (if b then ok q else find_parent snapshots target parents) ≡ ok id
        → IsParentOf snapshots target (q ∷ parents) id
    go later true s stored m e =
        let z : q ≡ id = cc in
        (rw z (rw (==_refl id) refl), s, ap (get_snapshot snapshots) (sym z) ∙ stored, m)
    go later false s stored m e =
        let found = later e in
        let inside : contains parents id ≡ true = found.0 in
        (ground (arith, inside), found.1, found.2, found.3)

or_not_found-ok {ℓ} : {A : Type ℓ} (m : Result A) (a : A) → or_not_found m ≡ ok a → m ≡ ok a
or_not_found-ok (ok b) a h = h
or_not_found-ok (err e) a h = absurd (cc)

pub row-ok : (o : Option Partition) (p : Partition) → row o ≡ ok p → o ≡ some p
row-ok none p h = absurd (cc)
row-ok (some q) p h = cc

abbrev returned : PartitionTable → SnapshotId → Result (PartitionTable × SnapshotId)
returned table id = ok (table, id)

returned-inj :
    (t u : PartitionTable) (a b : SnapshotId) → returned t a ≡ returned u b → (t ≡ u) × (a ≡ b)
returned-inj t u a b h = (cc, cc)

-- A rollback of staged to a layer that succeeds points staged at a parent of the snapshot it pointed to, one
-- that is stored and whose type is of that layer; the parent is appended to the history of staged, and the other
-- partitions stay as they are.
pub rollback_staged_to_layer_lem :
    (snapshots : SnapshotTable) (table after : PartitionTable) (target : LayerType)
    (id : SnapshotId)
    → rollback_staged_to_layer snapshots table target ≡ ok (after, id)
    → (p : Partition) × (s : Snapshot) × (find table staged_partition_id ≡ some p)
      × (get_snapshot snapshots p.current_snapshot ≡ ok s)
      × IsParentOf snapshots target s.parents id
      × (find after staged_partition_id ≡ some (pointed id p))
      × ((j : PartitionId) → staged_partition_id ≢ j → find after j ≡ find table j)
unfolding rollback_staged_to_layer get_partition
rollback_staged_to_layer_lem snapshots table after target id h =
    let (p, at_staged, h1) = >>=-eq-ok (or_not_found (row (find table staged_partition_id))) _ h in
    let (s, stored, h2) = >>=-eq-ok (get_snapshot snapshots p.current_snapshot) _ h1 in
    let (parent_id, chosen, h3) = >>=-eq-ok (find_parent snapshots target s.parents) _ h2 in
    let (moved, updated, h4) =
      >>=-eq-ok (update_pointer table staged_partition_id parent_id) _ h3 in
    let there : find table staged_partition_id ≡ some p =
      row-ok _ p (or_not_found-ok _ p at_staged) in
    let (same, here) = returned-inj moved after parent_id id h4 in
    let (after', moved', found, others) =
      update_pointer_lem table staged_partition_id p parent_id there in
    let z : after' ≡ after = cc in
    let chosen_id : find_parent snapshots target s.parents ≡ ok id = chosen ∙ ap ok here in
    let pointed_id : find after' staged_partition_id ≡ some (pointed id p) =
      found ∙ ap (λ i. some (pointed i p)) here in
    let law = find_parent-ok snapshots target s.parents id chosen_id in
    (
      p,
      s,
      there,
      stored,
      law,
      ap (λ t. find t staged_partition_id) (sym z) ∙ pointed_id,
      λ j other. ap (λ t. find t j) (sym z) ∙ others j other,
    )
