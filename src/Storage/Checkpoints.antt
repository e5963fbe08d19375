-- ===== src/Storage/Checkpoints.antt =====
-- `SqliteStorage` as a `CheckpointPersist` (src/storage/sqlite/checkpoint.rs, src/storage/sqlite/dag.rs), with the tables of
-- src/storage/migrations.rs as lists of rows. `room` is the number of writing statements that still succeed: a
-- statement that fails changes nothing. What is written as JSON is read back as it was.
pub mod Rows
pub mod Unique
use layertwine.Prelude.{
  ℕ, zero, suc, ◌+◌, ◌-◌, ◌≡◌, Bool, true, false, not, ◌&&◌, ◌||◌, List, [], ◌∷◌, ◌++◌, Option,
  none, some, Text, text_eq, ltb, leb, ◌==◌, if◌then◌else◌, Result, ok, err, Error, Action, ◌>>>=◌,
  ◌>>>◌, lookup, insert, remove, get_or_default, insert_new, contains,
}
use layertwine.Core.Partition.{SnapshotId}
use layertwine.Core.Ids.{Bytes}
use layertwine.Core.Deltas.{Delta}
use layertwine.Core.Snapshots.{Snapshot, FileNode}
use layertwine.Checkpoint.Dag.{CheckpointId, or_insert}
use layertwine.Checkpoint.Types.{Checkpoint, Branch}
use layertwine.Storage.Partitions.{text_le}

pub record Store : Type 0 where
  pub checkpoints : List Checkpoint
  pub branches : List Branch
  pub metadata : List (Text × Text)
  pub dag_edges : List (CheckpointId × CheckpointId)
  pub dag_generations : List (CheckpointId × ℕ)
  pub snapshots : List Snapshot
  pub deltas : List Delta
  pub file_nodes : List (FileNode × Bytes)
  pub room : ℕ

abbrev pub Write : Type 0
Write = Action Store (Unit {0})

abbrev pub statement_at : ℕ → (Store → Store) → Write
statement_at zero change s = (err Error.storage, s)
statement_at (suc room) change s = (ok tt, change (record s { room = room }))

unfoldable pub statement : (Store → Store) → Write
statement change s = statement_at s.room change s

unfoldable pub find_checkpoint : List Checkpoint → CheckpointId → Option Checkpoint
find_checkpoint [] id = none
find_checkpoint (cp ∷ cps) id =
    let rest = find_checkpoint cps id in if cp.id == id then some cp else rest

-- `INSERT OR IGNORE`.
abbrev pub or_ignore : Option Checkpoint → List Checkpoint → Checkpoint → List Checkpoint
or_ignore none cps cp = cps ++ (cp ∷ [])
or_ignore (some old) cps cp = cps

unfoldable pub store_checkpoint : Checkpoint → Write
store_checkpoint cp = statement (λ s. record s {
  checkpoints = or_ignore (find_checkpoint s.checkpoints cp.id) s.checkpoints cp;
})

abbrev pub checkpoint_row : Option Checkpoint → Result Checkpoint
checkpoint_row none = err Error.storage
checkpoint_row (some cp) = ok cp

unfoldable pub get_checkpoint : Store → CheckpointId → Result Checkpoint
get_checkpoint s id = checkpoint_row (find_checkpoint s.checkpoints id)

abbrev pub is_some {ℓ} : {A : Type ℓ} → Option A → Bool
is_some none = false
is_some (some a) = true

unfoldable pub checkpoint_exists : Store → CheckpointId → Bool
checkpoint_exists s id = is_some (find_checkpoint s.checkpoints id)

-- `ORDER BY created_at DESC`.
unfoldable pub insert_by_age : Checkpoint → List Checkpoint → List Checkpoint
insert_by_age cp [] = cp ∷ []
insert_by_age cp (c ∷ cps) =
    let rest = insert_by_age cp cps in
    if ltb cp.created_at c.created_at then c ∷ rest else cp ∷ c ∷ cps

unfoldable pub by_age : List Checkpoint → List Checkpoint
by_age [] = []
by_age (cp ∷ cps) = insert_by_age cp (by_age cps)

unfoldable pub list_checkpoints : Store → List Checkpoint
list_checkpoints s = by_age s.checkpoints

unfoldable pub without_checkpoint : CheckpointId → List Checkpoint → List Checkpoint
without_checkpoint id [] = []
without_checkpoint id (cp ∷ cps) =
    let rest = without_checkpoint id cps in if cp.id == id then rest else cp ∷ rest

-- No affected row is an error.
abbrev pub affected : Option Checkpoint → Write
affected none s = (err Error.storage, s)
affected (some cp) s = (ok tt, s)

unfoldable pub delete_checkpoint : CheckpointId → Write
delete_checkpoint id s =
    statement (λ s. record s { checkpoints = without_checkpoint id s.checkpoints }) s
    >>> affected (find_checkpoint s.checkpoints id)

unfoldable pub without_branch : Text → List Branch → List Branch
without_branch name [] = []
without_branch name (b ∷ bs) =
    let rest = without_branch name bs in if text_eq b.name name then rest else b ∷ rest

-- `INSERT OR REPLACE`.
unfoldable pub store_branch : Branch → Write
store_branch b =
    statement (λ s. record s { branches = without_branch b.name s.branches ++ (b ∷ []) })

unfoldable pub find_branch_row : List Branch → Text → Option Branch
find_branch_row [] name = none
find_branch_row (b ∷ bs) name =
    let rest = find_branch_row bs name in if text_eq b.name name then some b else rest

abbrev pub branch_row : Option Branch → Result Branch
branch_row none = err Error.storage
branch_row (some b) = ok b

unfoldable pub get_branch : Store → Text → Result Branch
get_branch s name = branch_row (find_branch_row s.branches name)

unfoldable pub headed : (now : ℕ) → Text → CheckpointId → List Branch → List Branch
headed now name head [] = []
headed now name head (b ∷ bs) =
    (if text_eq b.name name then record b { head = head; updated_at = now } else b)
    ∷ headed now name head bs

unfoldable pub update_branch_head : (now : ℕ) → Text → CheckpointId → Write
update_branch_head now name head =
    statement (λ s. record s { branches = headed now name head s.branches })

-- `ORDER BY name`.
unfoldable pub insert_by_name : Branch → List Branch → List Branch
insert_by_name b [] = b ∷ []
insert_by_name b (c ∷ bs) =
    let rest = insert_by_name b bs in if text_le b.name c.name then b ∷ c ∷ bs else c ∷ rest

unfoldable pub by_name : List Branch → List Branch
by_name [] = []
by_name (b ∷ bs) = insert_by_name b (by_name bs)

unfoldable pub list_branches : Store → List Branch
list_branches s = by_name s.branches

unfoldable pub delete_branch : Text → Write
delete_branch name = statement (λ s. record s { branches = without_branch name s.branches })

unfoldable pub replace_text : Text → Text → List (Text × Text) → List (Text × Text)
replace_text key value [] = (key, value) ∷ []
replace_text key value ((k, v) ∷ rows) =
    let rest = replace_text key value rows in
    if text_eq k key then (key, value) ∷ rows else (k, v) ∷ rest

unfoldable pub lookup_text : Text → List (Text × Text) → Option Text
lookup_text key [] = none
lookup_text key ((k, v) ∷ rows) =
    let rest = lookup_text key rows in if text_eq k key then some v else rest

unfoldable pub store_metadata : (key value : Text) → Write
store_metadata key value =
    statement (λ s. record s { metadata = replace_text key value s.metadata })

unfoldable pub load_metadata : Store → Text → Option Text
load_metadata s key = lookup_text key s.metadata

unfoldable pub has_edge : List (CheckpointId × CheckpointId) → (parent child : CheckpointId) → Bool
has_edge [] parent child = false
has_edge ((p, c) ∷ edges) parent child =
    ((p == parent) && (c == child)) || has_edge edges parent child

unfoldable pub edge_or_ignore :
    CheckpointId
    → CheckpointId
    → List (CheckpointId × CheckpointId)
    → List (CheckpointId × CheckpointId)
edge_or_ignore parent child edges =
    if has_edge edges parent child then edges else edges ++ ((parent, child) ∷ [])

-- Three statements, without a transaction around them.
unfoldable pub store_dag_edge : (parent_id child_id : CheckpointId) (child_generation : ℕ) → Write
store_dag_edge parent_id child_id child_generation s =
    statement (λ s. record s { dag_edges = edge_or_ignore parent_id child_id s.dag_edges }) s
    >>> statement
        (λ s. record s { dag_generations = insert child_id child_generation s.dag_generations })
    >>> statement (λ s. record s { dag_generations = or_insert parent_id 0 s.dag_generations })

unfoldable pub without_edges :
    CheckpointId → List (CheckpointId × CheckpointId) → List (CheckpointId × CheckpointId)
without_edges id [] = []
without_edges id ((p, c) ∷ edges) =
    let rest = without_edges id edges in if (p == id) || (c == id) then rest else (p, c) ∷ rest

unfoldable pub delete_dag_node : CheckpointId → Write
delete_dag_node id s =
    statement (λ s. record s { dag_edges = without_edges id s.dag_edges }) s
    >>> statement (λ s. record s { dag_generations = remove id s.dag_generations })

unfoldable pub insert_edges :
    List (CheckpointId × CheckpointId)
    → List (CheckpointId × CheckpointId)
    → List (CheckpointId × CheckpointId)
insert_edges [] edges = edges
insert_edges ((p, c) ∷ new) edges = insert_edges new (edge_or_ignore p c edges)

unfoldable pub insert_generations :
    List (CheckpointId × ℕ) → List (CheckpointId × ℕ) → List (CheckpointId × ℕ)
insert_generations [] generations = generations
insert_generations ((id, gen) ∷ new) generations =
    insert_generations new (insert id gen generations)

-- One transaction: it counts as one statement.
unfoldable pub store_dag_batch :
    List (CheckpointId × ℕ) → List (CheckpointId × CheckpointId) → Write
store_dag_batch nodes edges = statement (λ s. record s {
  dag_edges = insert_edges edges s.dag_edges;
  dag_generations = insert_generations nodes s.dag_generations;
})

unfoldable pub load_nodes :
    List (CheckpointId × CheckpointId)
    → List (CheckpointId × List CheckpointId)
    → List (CheckpointId × List CheckpointId)
load_nodes [] nodes = nodes
load_nodes ((p, c) ∷ edges) nodes =
    load_nodes edges
      (or_insert c [] (insert p (insert_new c (get_or_default [] (lookup p nodes))) nodes))

unfoldable pub load_dag : Store → List (CheckpointId × List CheckpointId) × List (CheckpointId × ℕ)
load_dag s = (load_nodes s.dag_edges [], insert_generations s.dag_generations [])

unfoldable pub dag_has_node : Store → CheckpointId → Bool
dag_has_node s id = is_some (lookup id s.dag_generations)

unfoldable pub find_snapshot : List Snapshot → SnapshotId → Option Snapshot
find_snapshot [] id = none
find_snapshot (s ∷ ss) id = let rest = find_snapshot ss id in if s.id == id then some s else rest

abbrev pub snapshot_or_ignore : Option Snapshot → List Snapshot → Snapshot → List Snapshot
snapshot_or_ignore none ss s = ss ++ (s ∷ [])
snapshot_or_ignore (some old) ss s = ss

unfoldable pub store_snapshot : Snapshot → Write
store_snapshot snapshot = statement (λ s. record s {
  snapshots = snapshot_or_ignore (find_snapshot s.snapshots snapshot.id) s.snapshots snapshot;
})

abbrev pub snapshot_row : Option Snapshot → Result Snapshot
snapshot_row none = err Error.storage
snapshot_row (some s) = ok s

unfoldable pub get_snapshot : Store → SnapshotId → Result Snapshot
get_snapshot s id = snapshot_row (find_snapshot s.snapshots id)
