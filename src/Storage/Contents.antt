-- ===== src/Storage/Contents.antt =====
-- `SqliteStorage` as a `DeltaStore` and a `FileNodeStore` (src/storage/sqlite/delta.rs, src/storage/sqlite/file_node.rs), on the tables
-- of src/storage/migrations.rs. A write may fail. A query fails only for want of a row, and what is written as JSON
-- is read back as it was.
pub mod Repeats
use layertwine.Prelude.{
  ℕ, Bool, true, false, ◌&&◌, List, [], ◌∷◌, ◌++◌, Option, none, some, Text, text_eq, ◌==◌,
  if◌then◌else◌, Result, ok, err, Error,
}
use layertwine.Core.Ids.{Bytes}
use layertwine.Core.Snapshots.{DeltaId, FileNode}
use layertwine.Core.Deltas.{Delta}
use layertwine.Storage.Checkpoints.{Store, Write, statement}

unfoldable pub find_delta : List Delta → DeltaId → Option Delta
find_delta [] id = none
find_delta (d ∷ ds) id = let rest = find_delta ds id in if d.id == id then some d else rest

abbrev pub delta_or_ignore : Option Delta → List Delta → Delta → List Delta
delta_or_ignore none ds d = ds ++ (d ∷ [])
delta_or_ignore (some old) ds d = ds

unfoldable pub store_delta : Delta → Write
store_delta d =
    statement (λ s. record s { deltas = delta_or_ignore (find_delta s.deltas d.id) s.deltas d })

abbrev pub delta_row : Option Delta → Result Delta
delta_row none = err Error.storage
delta_row (some d) = ok d

unfoldable pub get_delta : Store → DeltaId → Result Delta
get_delta s id = delta_row (find_delta s.deltas id)

unfoldable pub without_delta : DeltaId → List Delta → List Delta
without_delta id [] = []
without_delta id (d ∷ ds) = let rest = without_delta id ds in if d.id == id then rest else d ∷ rest

abbrev pub with_found : Option Delta → List Delta → List Delta
with_found none rest = rest
with_found (some d) rest = d ∷ rest

-- The rows by id; one that is taken is removed.
unfoldable pub take_deltas : List Delta → List DeltaId → List Delta
take_deltas delta_map [] = []
take_deltas delta_map (id ∷ ids) =
    with_found (find_delta delta_map id) (take_deltas (without_delta id delta_map) ids)

unfoldable pub get_deltas : Store → List DeltaId → List Delta
get_deltas s ids = take_deltas s.deltas ids

unfoldable pub delta_exists : Store → DeltaId → Bool
delta_exists s id = elim (find_delta s.deltas id) [ none ↦ false | some d ↦ true ]

-- The primary key is the path with the hash.
unfoldable pub find_file :
    List (FileNode × Bytes) → (file_path : Text) (base_hash : ℕ) → Option Bytes
find_file [] file_path base_hash = none
find_file ((f, content) ∷ files) file_path base_hash =
    let rest = find_file files file_path base_hash in
    if text_eq f.file_path file_path && f.base_hash == base_hash then some content else rest

abbrev pub file_or_ignore :
    Option Bytes → List (FileNode × Bytes) → FileNode → Bytes → List (FileNode × Bytes)
file_or_ignore none files file content = files ++ ((file, content) ∷ [])
file_or_ignore (some old) files file content = files

unfoldable pub store_file_node : FileNode → Bytes → Write
store_file_node file content = statement (λ s. record s {
  file_nodes =
      file_or_ignore (find_file s.file_nodes file.file_path file.base_hash) s.file_nodes file
        content;
})

abbrev pub file_row : Option Bytes → Result Bytes
file_row none = err Error.storage
file_row (some content) = ok content

unfoldable pub get_file_content : Store → (file_path : Text) (base_hash : ℕ) → Result Bytes
get_file_content s file_path base_hash = file_row (find_file s.file_nodes file_path base_hash)

unfoldable pub file_node_exists : Store → (file_path : Text) (base_hash : ℕ) → Bool
file_node_exists s file_path base_hash = elim (find_file s.file_nodes file_path base_hash) [
  | none ↦ false
  | some content ↦ true
]
