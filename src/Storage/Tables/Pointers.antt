-- ===== src/Storage/Tables/Pointers.antt =====
-- What `update_pointer_internal` of src/storage/sqlite/partition.rs does where both its writes succeed, and where the second fails.
use layertwine.Prelude.{
  ℕ, suc, ◌≡◌, refl, sym, ap, ◌∙◌, [], ◌∷◌, some, ◌==◌, ==_refl, Bool-cases, inl, inr, ok, err,
  Error,
}
use layertwine.Core.Partition.{Partition, PartitionId, SnapshotId}
use layertwine.Storage.Partitions.{PartitionTable, find, update, update_pointer, pointed}
use layertwine.Storage.Partitions.Laws.{find-update}
use layertwine.Storage.Tables.{
  Tables, partition_statement, set_current, add_history, update_pointer_internal,
}

-- Two updates of a row, the first of which keeps its id, are one.
update-update :
    (f g : Partition → Partition) (keeps : (p : Partition) → (f p).id ≡ p.id)
    (table : PartitionTable) (id : PartitionId)
    → update g (update f table id) id ≡ update (λ p. g (f p)) table id
unfolding update
update-update f g keeps [] id = refl
update-update f g keeps (p ∷ table) id = elim (Bool-cases (p.id == id)) [
  | inl same ↦ rw same (rw (keeps p, same) refl)
  | inr other ↦ rw other (rw other (ap (◌∷◌ p) (update-update f g keeps table id)))
]

-- With room for both writes they succeed, and the tables are those of `update_pointer`.
pub update_pointer_internal_lem :
    (id : PartitionId) (snapshot : SnapshotId) (p : Partition) (t : Tables) (r : ℕ)
    → find t.partitions id ≡ some p
    → t.store.room ≡ suc (suc r)
    → (after : PartitionTable) × (update_pointer_internal id snapshot t
        ≡ (ok tt, record { partitions = after; store = record t.store { room = r } }))
      × (update_pointer t.partitions id snapshot ≡ ok after)
unfolding update_pointer_internal partition_statement set_current add_history update_pointer pointed
update_pointer_internal_lem id snapshot p t r there room =
    let table = update (set_current snapshot) t.partitions id in
    let found : find table id ≡ some (set_current snapshot p) =
      find-update (set_current snapshot) (λ q. refl) t.partitions id id
      ∙ rw (==_refl id, there) refl in
    let twice =
      update-update (set_current snapshot) (add_history snapshot) (λ q. refl) t.partitions id in
    (update (add_history snapshot) table id, rw (room, found) refl, rw there (ap ok (sym twice)))

-- With room for one write, the operation fails, but the pointer has moved: the history does not have the snapshot to which
-- the partition now points.
pub update_pointer_internal_torn :
    (id : PartitionId) (snapshot : SnapshotId) (p : Partition) (t : Tables)
    → find t.partitions id ≡ some p
    → t.store.room ≡ 1
    → (after : Tables) × (update_pointer_internal id snapshot t ≡ (err Error.storage, after))
      × (find after.partitions id ≡ some (set_current snapshot p))
unfolding update_pointer_internal partition_statement set_current
update_pointer_internal_torn id snapshot p t there room = (
  record {
    partitions = update (set_current snapshot) t.partitions id;
    store = record t.store { room = 0 };
  },
  rw room refl,
  find-update (set_current snapshot) (λ q. refl) t.partitions id id ∙ rw (==_refl id, there) refl,
)
