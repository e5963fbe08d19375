-- ===== src/Storage/Partitions.antt =====
-- `SqliteStorage` as a `PartitionStore` (src/storage/sqlite/partition.rs), with the tables of
-- src/storage/migrations.rs: a row of `partitions` and its rows of `partition_history`, by `seq`, are one
-- `Partition`. `seq` counts from 0 and grows by one, so that it is the place in the list. The
-- operations are the runs in which the database takes every write and answers every query; what the tables refuse changes nothing. Storage/Tables.antt
-- has the pointer's writes with their failures. The JSON of a partition's type is read back as it was written.
pub mod Laws
use layertwine.Prelude.{
  ℕ, ◌≡◌, Bool, true, false, not, ◌||◌, List, [], ◌∷◌, ◌++◌, Option, none, some, Text, take, head?,
  text_eq, ltb, ◌==◌, if◌then◌else◌, Result, ok, err, Error,
}
use layertwine.Core.Partition.{Partition, PartitionId, SnapshotId}

abbrev pub PartitionTable : Type 0
PartitionTable = List Partition

unfoldable pub find : PartitionTable → PartitionId → Option Partition
find [] id = none
find (p ∷ table) id = let rest = find table id in if p.id == id then some p else rest

unfoldable pub find_name : PartitionTable → Text → Option Partition
find_name [] name = none
find_name (p ∷ table) name =
    let rest = find_name table name in if text_eq p.name name then some p else rest

-- `query_row`, which fails where no row is found.
abbrev pub row : Option Partition → Result Partition
row none = err Error.storage
row (some p) = ok p

unfoldable pub get_partition : PartitionTable → PartitionId → Result Partition
get_partition table id = row (find table id)

unfoldable pub get_partition_by_name : PartitionTable → Text → Result Partition
get_partition_by_name table name = row (find_name table name)

-- The primary key and the unique name refuse a second row.
abbrev pub inserted :
    Option Partition → Option Partition → PartitionTable → Partition → Result PartitionTable
inserted none none table p = ok (table ++ (p ∷ []))
inserted none (some q) table p = err Error.storage
inserted (some q) other table p = err Error.storage

unfoldable pub create_partition : PartitionTable → Partition → Result PartitionTable
create_partition table p = inserted (find table p.id) (find_name table p.name) table p

-- `UPDATE … WHERE id = ?`.
unfoldable pub update : (Partition → Partition) → PartitionTable → PartitionId → PartitionTable
update f [] id = []
update f (p ∷ table) id =
    let rest = update f table id in if p.id == id then f p ∷ table else p ∷ rest

-- The row's pointer, and a row of the history after those that are there.
unfoldable pub pointed : SnapshotId → Partition → Partition
pointed snapshot p = record p {
  current_snapshot = snapshot;
  history = p.history ++ (snapshot ∷ []);
}

-- Without the partition the `UPDATE` changes no row and the foreign key of the history refuses the `INSERT`.
abbrev pub pointed_at :
    Option Partition → PartitionTable → PartitionId → SnapshotId → Result PartitionTable
pointed_at none table id snapshot = err Error.storage
pointed_at (some p) table id snapshot = ok (update (pointed snapshot) table id)

unfoldable pub update_pointer : PartitionTable → PartitionId → SnapshotId → Result PartitionTable
update_pointer table id snapshot = pointed_at (find table id) table id snapshot

unfoldable pub baseline : SnapshotId → Partition → Partition
baseline first p = record p { current_snapshot = first; history = take 1 p.history }

abbrev pub reset_to : Option SnapshotId → PartitionTable → PartitionId → Result PartitionTable
reset_to none table id = err Error.storage
reset_to (some first) table id = ok (update (baseline first) table id)

-- The first row of a partition's history.
abbrev pub first_of : Option Partition → Option SnapshotId
first_of none = none
first_of (some p) = head? p.history

unfoldable pub reset_partition_to_baseline : PartitionTable → PartitionId → Result PartitionTable
reset_partition_to_baseline table id = reset_to (first_of (find table id)) table id

-- `ORDER BY name`: the binary collation.
unfoldable pub text_le : Text → Text → Bool
text_le [] t = true
text_le (a ∷ s) [] = false
text_le (a ∷ s) (b ∷ t) = let rest = text_le s t in if a == b then rest else ltb a b

unfoldable pub insert_by_name : Partition → PartitionTable → PartitionTable
insert_by_name p [] = p ∷ []
insert_by_name p (q ∷ table) =
    let rest = insert_by_name p table in if text_le p.name q.name then p ∷ q ∷ table else q ∷ rest

unfoldable pub list_partitions : PartitionTable → List Partition
list_partitions [] = []
list_partitions (p ∷ table) = insert_by_name p (list_partitions table)

unfoldable pub delete_partition : PartitionTable → PartitionId → PartitionTable
delete_partition [] id = []
delete_partition (p ∷ table) id =
    let rest = delete_partition table id in if p.id == id then rest else p ∷ rest
