-- ===== src/Checkpoint/Dag.antt =====
-- `CheckpointDag` of src/checkpoint/dag.rs. A checkpoint's id is the number that its 32 bytes write.
-- Each `while` loop over a queue takes fuel; `none` means that the fuel ran out.
pub mod Search
pub mod Popped
pub mod Children
pub mod Ranked
pub mod Stale
use layertwine.Prelude.{
  ℕ, zero, suc, ◌+◌, Bool, true, false, not, ◌&&◌, ◌||◌, List, [], ◌∷◌, ◌++◌, Option, none, some,
  max, map, leb, ltb, ◌==◌, if◌then◌else◌, lookup, insert, remove, get_or_default, contains,
  insert_new, length,
}

abbrev pub CheckpointId : Type 0
CheckpointId = ℕ

pub record CheckpointDag : Type 0 where
  pub nodes : List (CheckpointId × List CheckpointId)
  pub generation : List (CheckpointId × ℕ)

abbrev pub new : CheckpointDag
new = record { nodes = []; generation = [] }

-- `entry(key).or_insert(value)`.
unfoldable pub or_insert {ℓ} : {V : Type ℓ} → ℕ → V → List (ℕ × V) → List (ℕ × V)
or_insert k v m = elim (lookup k m) [ none ↦ insert k v m | some w ↦ m ]

unfoldable pub children_of : CheckpointDag → CheckpointId → List CheckpointId
children_of dag id = get_or_default [] (lookup id dag.nodes)

unfoldable pub generation_of : CheckpointDag → CheckpointId → ℕ
generation_of dag id = get_or_default 0 (lookup id dag.generation)

unfoldable pub add_node : CheckpointDag → CheckpointId → CheckpointDag
add_node dag id = record {
  nodes = or_insert id [] dag.nodes;
  generation = or_insert id 0 dag.generation;
}

unfoldable pub add_edge_unchecked : CheckpointDag → (parent child : CheckpointId) → CheckpointDag
add_edge_unchecked dag parent child =
    let nodes = or_insert child [] (or_insert parent [] dag.nodes) in
    let nodes' = insert parent (insert_new child (get_or_default [] (lookup parent nodes))) nodes in
    let generation = or_insert parent 0 dag.generation in
    let parent_gen = get_or_default 0 (lookup parent generation) in
    let child_gen = get_or_default 0 (lookup child (or_insert child 0 generation)) in
    record {
      nodes = nodes';
      generation = insert child (max child_gen (parent_gen + 1)) (or_insert child 0 generation);
    }

-- The children that are pushed: those not visited yet.
unfoldable pub unvisited : List CheckpointId → List CheckpointId → List CheckpointId
unvisited visited [] = []
unvisited visited (c ∷ cs) =
    let rest = unvisited visited cs in if contains visited c then rest else c ∷ rest

module _ (next : CheckpointId → List CheckpointId) where
  -- The loop of `would_create_cycle`: the target is looked for where a node is popped.
  unfoldable pub search_popped :
      ℕ → (target : CheckpointId) → (queue visited : List CheckpointId) → Option Bool
  search_popped fuel target [] visited = some false
  search_popped zero target (current ∷ queue) visited = none
  search_popped (suc fuel) target (current ∷ queue) visited = elim (current == target) [
    | true ↦ some true
    | false ↦ elim (contains visited current) [
      | true ↦ search_popped fuel target queue visited
      | false ↦
          search_popped fuel target (queue ++ unvisited (current ∷ visited) (next current))
            (current ∷ visited)
    ]
  ]

  -- The loop of `is_ancestor`: the target is looked for among the children of a popped node.
  unfoldable pub search_children :
      ℕ → (target : CheckpointId) → (queue visited : List CheckpointId) → Option Bool
  search_children fuel target [] visited = some false
  search_children zero target (current ∷ queue) visited = none
  search_children (suc fuel) target (current ∷ queue) visited = elim (contains visited current) [
    | true ↦ search_children fuel target queue visited
    | false ↦ elim (contains (next current) target) [
      | true ↦ some true
      | false ↦
          search_children fuel target (queue ++ unvisited (current ∷ visited) (next current))
            (current ∷ visited)
    ]
  ]

  -- The loop of `ancestors`.
  unfoldable pub collect :
      ℕ
      → (start : CheckpointId) → (queue visited result : List CheckpointId)
      → Option (List CheckpointId)
  collect fuel start [] visited result = some result
  collect zero start (current ∷ queue) visited result = none
  collect (suc fuel) start (current ∷ queue) visited result = elim (contains visited current) [
    | true ↦ collect fuel start queue visited result
    | false ↦
        collect fuel start (queue ++ unvisited (current ∷ visited) (next current))
          (current ∷ visited) (if current == start then result else result ++ (current ∷ []))
  ]

  -- The loop of `merge_base`: the first popped node of the given set.
  unfoldable pub first_of_set :
      ℕ
      → (set : List CheckpointId) → (queue visited : List CheckpointId)
      → Option (Option CheckpointId)
  first_of_set fuel set [] visited = some none
  first_of_set zero set (current ∷ queue) visited = none
  first_of_set (suc fuel) set (current ∷ queue) visited = elim (contains set current) [
    | true ↦ some (some current)
    | false ↦ elim (contains visited current) [
      | true ↦ first_of_set fuel set queue visited
      | false ↦
          first_of_set fuel set (queue ++ unvisited (current ∷ visited) (next current))
            (current ∷ visited)
    ]
  ]

-- The number of edges, and one: enough for a loop over all of the graph.
unfoldable pub edge_count : List (CheckpointId × List CheckpointId) → ℕ
edge_count [] = 0
edge_count ((id, children) ∷ nodes) = length children + edge_count nodes

unfoldable pub fuel_for : CheckpointDag → ℕ
fuel_for dag = edge_count dag.nodes + 1

unfoldable pub would_create_cycle : CheckpointDag → (parent child : CheckpointId) → Option Bool
would_create_cycle dag parent child =
    if parent == child
    then some true
    else if leb (generation_of dag parent) (generation_of dag child)
    then some false
    else search_popped (children_of dag) (fuel_for dag) parent (child ∷ []) []

unfoldable pub add_edge_if :
    Option Bool → CheckpointDag → (parent child : CheckpointId) → Option (CheckpointDag × Bool)
add_edge_if none dag parent child = none
add_edge_if (some true) dag parent child = some (dag, false)
add_edge_if (some false) dag parent child = some (add_edge_unchecked dag parent child, true)

unfoldable pub add_edge :
    CheckpointDag → (parent child : CheckpointId) → Option (CheckpointDag × Bool)
unfolding add_edge_if
add_edge dag parent child = add_edge_if (would_create_cycle dag parent child) dag parent child

-- The pruning applies only if both generations are known.
unfoldable pub pruned : Option ℕ → Option ℕ → Bool
pruned (some ag) (some dg) = leb dg ag
pruned (some ag) none = false
pruned none dg = false

unfoldable pub is_ancestor : CheckpointDag → (ancestor descendant : CheckpointId) → Option Bool
is_ancestor dag ancestor descendant =
    if ancestor == descendant
    then some true
    else if pruned (lookup ancestor dag.generation) (lookup descendant dag.generation)
    then some false
    else search_children (children_of dag) (fuel_for dag) descendant (ancestor ∷ []) []

unfoldable pub has_node : CheckpointDag → CheckpointId → Bool
has_node dag id = elim (lookup id dag.nodes) [ none ↦ false | some children ↦ true ]

unfoldable pub set_generation : CheckpointDag → CheckpointId → ℕ → CheckpointDag
set_generation dag id gen = record dag { generation = insert id gen dag.generation }

without : CheckpointId → List CheckpointId → List CheckpointId
without id [] = []
without id (c ∷ cs) = let rest = without id cs in if c == id then rest else c ∷ rest

drop_child :
    CheckpointId → List (CheckpointId × List CheckpointId) → List (CheckpointId × List CheckpointId)
drop_child id [] = []
drop_child id ((n, children) ∷ nodes) = (n, without id children) ∷ drop_child id nodes

unfoldable pub remove_node : CheckpointDag → CheckpointId → CheckpointDag
unfolding drop_child without
remove_node dag id = record {
  nodes = drop_child id (remove id dag.nodes);
  generation = remove id dag.generation;
}

-- `ancestors` and `merge_base` follow the given parents, with the fuel given.
unfoldable pub ancestors :
    ℕ → (get_parents : CheckpointId → List CheckpointId) → CheckpointId → Option (List CheckpointId)
ancestors fuel get_parents id = collect get_parents fuel id (id ∷ []) [] []

merge_base_in :
    Option (List CheckpointId)
    → ℕ
    → (get_parents : CheckpointId → List CheckpointId) → CheckpointId
    → CheckpointId
    → Option (Option CheckpointId)
merge_base_in none fuel get_parents id1 id2 = none
merge_base_in (some ancestors1) fuel get_parents id1 id2 =
    first_of_set get_parents fuel (ancestors1 ++ (id1 ∷ [])) (id2 ∷ []) []

unfoldable pub merge_base :
    ℕ
    → (get_parents : CheckpointId → List CheckpointId) → (id1 id2 : CheckpointId)
    → Option (Option CheckpointId)
unfolding merge_base_in
merge_base fuel get_parents id1 id2 =
    merge_base_in (ancestors fuel get_parents id1) fuel get_parents id1 id2
