-- ===== src/Storage/Partitions/Laws.antt =====
-- What a lookup finds after each operation on the partition table of src/storage/sqlite/partition.rs.
use layertwine.Prelude.{
  ℕ, ◌≡◌, ◌≢◌, refl, sym, ◌∙◌, ap, Bool, true, false, [], ◌∷◌, ◌++◌, Option, none, some, Bool-cases,
  inl, inr, arith, ◌==◌, ==_iff, ==_refl, ==_ne, head?, if◌then◌else◌, ok, some_inj, subst,
}
use layertwine.Core.Partition.{Partition, PartitionId}
use layertwine.Storage.Partitions.{
  PartitionTable, find, find_name, row, get_partition, create_partition, inserted, update, pointed,
  update_pointer, baseline, reset_partition_to_baseline,
}

abbrev pub map_found : (Partition → Partition) → Option Partition → Option Partition
map_found f none = none
map_found f (some p) = some (f p)

find-here :
    (p : Partition) (table : PartitionTable) (id : PartitionId)
    → find (p ∷ table) id ≡ (if p.id == id then some p else find table id)
unfolding find
find-here p table id = refl

pub find-id :
    (table : PartitionTable) (id : PartitionId) (p : Partition) → find table id ≡ some p → p.id ≡ id
find-id [] id p h = absurd (unfold find in cc)
find-id (q ∷ table) id p h = elim (Bool-cases (q.id == id)) [
  | inl same ↦
      let e : some q ≡ some p =
        ap (λ b. if b then some q else find table id) (sym same) ∙ sym (find-here q table id) ∙ h in
      ap (λ x. x.id) (sym (some_inj e)) ∙ (==_iff q.id id).0 same
  | inr other ↦
      find-id table id p
        (ap (λ b. if b then some q else find table id) (sym other) ∙ sym (find-here q table id) ∙ h)
]

-- An update that keeps the ids changes what is found under the id, and nothing else.
pub find-update :
    (f : Partition → Partition) (keeps : (p : Partition) → (f p).id ≡ p.id) (table : PartitionTable)
    (id j : PartitionId)
    → find (update f table id) j ≡ (if id == j then map_found f (find table j) else find table j)
unfolding find update
find-update f keeps [] id j = ground arith
find-update f keeps (p ∷ table) id j = elim (Bool-cases (p.id == id)) [
  | inl same ↦ rw same (ground (arith, keeps p))
  | inr other ↦ rw other (ground (arith, find-update f keeps table id j))
]

pub find-append :
    (table : PartitionTable) (p : Partition) (j : PartitionId)
    → find table p.id ≡ none
    → find (table ++ (p ∷ [])) j ≡ (if p.id == j then some p else find table j)
unfolding find
find-append [] p j h = refl
find-append (q ∷ table) p j h = ground (arith, find-append table p j)

-- A partition that is created is found under its id and hides no other; a partition with its id or its name is
-- refused.
pub create_partition_lem :
    (table after : PartitionTable) (p : Partition) (j : PartitionId)
    → create_partition table p ≡ ok after
    → get_partition after j ≡ (if p.id == j then ok p else get_partition table j)
unfolding create_partition get_partition
create_partition_lem table after p j h = go (find table p.id) (find_name table p.name) refl h
  where
    ok_inj : (a b : PartitionTable) → ok a ≡ ok b → a ≡ b
    ok_inj a b e = cc

    go :
        (a b : Option Partition)
        → find table p.id ≡ a
        → inserted a b table p ≡ ok after
        → row (find after j) ≡ (if p.id == j then ok p else row (find table j))
    go none none fresh e =
        subst (λ t. row (find t j) ≡ (if p.id == j then ok p else row (find table j)))
          (ok_inj (table ++ (p ∷ [])) after e)
          (ap row (find-append table p j fresh) ∙ row-if (p.id == j))
      where
        row-if :
            (b : Bool)
            → row (if b then some p else find table j) ≡ (if b then ok p else row (find table j))
        row-if true = refl
        row-if false = refl
    go none (some q) fresh e = absurd (cc)
    go (some q) none there e = absurd (cc)
    go (some q) (some r) there e = absurd (cc)

-- Moving the pointer of a partition appends to its history and sets its pointer, and leaves the other
-- partitions as they are; it fails for a partition that is not there, and only then.
pub update_pointer_lem :
    (table : PartitionTable) (id : PartitionId) (p : Partition) (snapshot : ℕ)
    → find table id ≡ some p
    → (after : PartitionTable) × (update_pointer table id snapshot ≡ ok after)
      × (find after id ≡ some (pointed snapshot p))
      × ((j : PartitionId) → id ≢ j → find after j ≡ find table j)
unfolding update_pointer
update_pointer_lem table id p snapshot h =
    let law = find-update (pointed snapshot) (λ q. unfold pointed in refl) table id in
    (
      update (pointed snapshot) table id,
      rw h refl,
      law id ∙ rw (==_refl id, h) refl,
      λ j other. law j ∙ rw (==_ne id j other) refl,
    )

pub reset_partition_to_baseline_lem :
    (table : PartitionTable) (id : PartitionId) (p : Partition) (first : ℕ)
    → find table id ≡ some p
    → head? p.history ≡ some first
    → (after : PartitionTable) × (reset_partition_to_baseline table id ≡ ok after)
      × (find after id ≡ some (baseline first p))
      × ((j : PartitionId) → id ≢ j → find after j ≡ find table j)
unfolding reset_partition_to_baseline
reset_partition_to_baseline_lem table id p first h b =
    let law = find-update (baseline first) (λ q. unfold baseline in refl) table id in
    (
      update (baseline first) table id,
      rw (h, b) refl,
      law id ∙ rw (==_refl id, h) refl,
      λ j other. law j ∙ rw (==_ne id j other) refl,
    )
