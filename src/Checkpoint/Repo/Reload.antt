-- ===== src/Checkpoint/Repo/Reload.antt =====
-- What `CheckpointRepo::load` (src/checkpoint/repo.rs) reads back from the tables.
pub mod RoundTrip
use layertwine.Prelude.{
  ℕ, zero, suc, ◌≡◌, refl, ap, sym, ◌∙◌, Bool, true, false, ◌&&◌, ◌||◌, List, [], ◌∷◌, ◌++◌, Option,
  none, some, Text, codes, ◌==◌, ==_refl, if◌then◌else◌, arith, Bool-cases, Option-cases, inl, inr,
  some_inj, Result, ok, err, lookup, insert, lookup-insert, contains, insert_new,
  contains-insert_new, get_or_default, get_elem?,
}
use layertwine.Core.Ids.{Bytes}
use layertwine.Checkpoint.Dag.{
  CheckpointDag, CheckpointId, add_node, add_edge_unchecked, or_insert, children_of, set_generation,
  has_node,
}
use layertwine.Checkpoint.Dag.Ranked.{edge-add_edge_unchecked, lookup-or_insert}
use layertwine.Checkpoint.TimeIndex.{Entry}
use layertwine.Checkpoint.TimeIndex.Entries.{has}
use layertwine.Checkpoint.Types.{Checkpoint, Branch}
use layertwine.Storage.Checkpoints.{Store, find_checkpoint, has_edge, load_nodes}
use layertwine.Storage.Checkpoints.Unique.{UniqueIds}
use layertwine.Checkpoint.Repo.Load.{
  keyed, build_from, add_edges_from, add_edges_to, add_nodes, set_generations, stamps,
}
use layertwine.Checkpoint.Repo.History.{Map, parents_of}
use layertwine.Checkpoint.Repo.Valid.{created, children_of-add_node}

abbrev pub or_else {ℓ} : {A : Type ℓ} → Option A → Option A → Option A
or_else none other = other
or_else (some a) other = some a

-- The rows collected by their ids.
pub lookup-keyed :
    (cps : List Checkpoint) (checkpoints : Map) (id : CheckpointId)
    → UniqueIds cps
    → lookup id (keyed cps checkpoints) ≡ or_else (find_checkpoint cps id) (lookup id checkpoints)
unfolding keyed find_checkpoint
lookup-keyed [] checkpoints id u = refl
lookup-keyed (cp ∷ cps) checkpoints id (first, u) =
    let rest = lookup-keyed cps (insert cp.id cp checkpoints) id u in
    elim (Bool-cases (cp.id == id)) [
      | inl same ↦
          let e : cp.id ≡ id = ground arith in
          let absent : find_checkpoint cps id ≡ none = rw (← e) first in
          rw same (rest ∙ rw (absent, lookup-insert cp.id id cp checkpoints, same) refl)
      | inr other ↦ rw other (rest ∙ rw (lookup-insert cp.id id cp checkpoints, other) refl)
    ]

-- The keys of a map, each once.
abbrev pub IsMap : Map → Type 0
IsMap [] = Unit
IsMap ((id, cp) ∷ checkpoints) = (lookup id checkpoints ≡ none) × (cp.id ≡ id) × IsMap checkpoints

insert-IsMap :
    (cp : Checkpoint) (checkpoints : Map) → IsMap checkpoints → IsMap (insert cp.id cp checkpoints)
unfolding insert lookup
insert-IsMap cp [] m = (refl, refl, tt)
insert-IsMap cp ((id, c) ∷ checkpoints) (first, key, m) = elim (Bool-cases (id == cp.id)) [
  | inl same ↦ let e : id ≡ cp.id = ground arith in rw same (rw (← e) first, refl, m)
  | inr other ↦
      let o : (cp.id == id) ≡ false = ground arith in
      rw other
        (lookup-insert cp.id id cp checkpoints ∙ rw o first, key, insert-IsMap cp checkpoints m)
]

pub keyed-IsMap :
    (cps : List Checkpoint) (checkpoints : Map) → IsMap checkpoints → IsMap (keyed cps checkpoints)
unfolding keyed
keyed-IsMap [] checkpoints m = m
keyed-IsMap (cp ∷ cps) checkpoints m =
    keyed-IsMap cps (insert cp.id cp checkpoints) (insert-IsMap cp checkpoints m)

-- The entries of the time index are the checkpoints at their times.
pub has-stamps :
    (checkpoints : Map) (t id : ℕ)
    → IsMap checkpoints
    → has (stamps checkpoints) t id ≡ created t (lookup id checkpoints)
unfolding stamps lookup
has-stamps [] t id m = refl
has-stamps ((i, cp) ∷ checkpoints) t id (first, key, m) = elim (Bool-cases (i == id)) [
  | inl same ↦
      let e : i ≡ id = ground arith in
      let absent : lookup id checkpoints ≡ none = rw (← e) first in
      rw (key, same, has-stamps checkpoints t id m, absent) (ground arith)
  | inr other ↦ rw (key, other, has-stamps checkpoints t id m) (ground arith)
]

-- Whether an entry of the map has an id and a parent.
abbrev pub has_parent : Map → (parent child : CheckpointId) → Bool
has_parent [] parent child = false
has_parent ((id, cp) ∷ checkpoints) parent child =
    ((id == child) && contains cp.parents parent) || has_parent checkpoints parent child

has_parent-absent :
    (checkpoints : Map) (x y : CheckpointId)
    → lookup y checkpoints ≡ none
    → has_parent checkpoints x y ≡ false
unfolding lookup
has_parent-absent [] x y h = refl
has_parent-absent ((id, cp) ∷ checkpoints) x y h = elim (Bool-cases (id == y)) [
  | inl same ↦ absurd (let e = rw same at h in cc)
  | inr other ↦ rw (other, has_parent-absent checkpoints x y (rw other at h)) refl
]

pub has_parent-lookup :
    (checkpoints : Map) (x y : CheckpointId)
    → IsMap checkpoints
    → has_parent checkpoints x y ≡ contains (parents_of checkpoints y) x
unfolding lookup parents_of
has_parent-lookup [] x y m = refl
has_parent-lookup ((id, cp) ∷ checkpoints) x y (first, key, m) = elim (Bool-cases (id == y)) [
  | inl same ↦
      let e : id ≡ y = ground arith in
      rw (same, has_parent-absent checkpoints x y (rw (← e) first)) (ground arith)
  | inr other ↦ rw (other, has_parent-lookup checkpoints x y m) refl
]

edges-add_edges_from :
    (dag : CheckpointDag) (parents : List CheckpointId) (c x y : CheckpointId)
    → contains (children_of (add_edges_from dag parents c) x) y
      ≡ (contains (children_of dag x) y || (contains parents x && (c == y)))
unfolding add_edges_from
edges-add_edges_from dag [] c x y = ground arith
edges-add_edges_from dag (p ∷ parents) c x y = ground (
  arith,
  edges-add_edges_from (add_edge_unchecked dag p c) parents c x y,
  edge-add_edge_unchecked dag p c x y,
)

-- The graph built from the checkpoints has an edge for each parent.
pub edges-build_from :
    (dag : CheckpointDag) (checkpoints : Map) (x y : CheckpointId)
    → contains (children_of (build_from dag checkpoints) x) y
      ≡ (contains (children_of dag x) y || has_parent checkpoints x y)
unfolding build_from
edges-build_from dag [] x y = ground arith
edges-build_from dag ((id, cp) ∷ checkpoints) x y =
    let first = edges-add_edges_from (add_node dag id) cp.parents id x y in
    let first' : contains (children_of (add_edges_from (add_node dag id) cp.parents id) x) y
        ≡ (contains (children_of dag x) y || (contains cp.parents x && (id == y))) =
      first ∙ rw (children_of-add_node dag id x) refl in
    ground (
      arith,
      edges-build_from (add_edges_from (add_node dag id) cp.parents id) checkpoints x y,
      first',
    )

edges-add_edges_to :
    (dag : CheckpointDag) (p : CheckpointId) (children : List CheckpointId) (x y : CheckpointId)
    → contains (children_of (add_edges_to dag p children) x) y
      ≡ (contains (children_of dag x) y || ((p == x) && contains children y))
unfolding add_edges_to
edges-add_edges_to dag p [] x y = ground arith
edges-add_edges_to dag p (c ∷ children) x y = ground (
  arith,
  edges-add_edges_to (add_edge_unchecked dag p c) p children x y,
  edge-add_edge_unchecked dag p c x y,
)

-- Whether an entry of a table of nodes has an id and a child.
abbrev pub has_child :
    List (CheckpointId × List CheckpointId) → (parent child : CheckpointId) → Bool
has_child [] parent child = false
has_child ((id, children) ∷ nodes) parent child =
    ((id == parent) && contains children child) || has_child nodes parent child

pub edges-add_nodes :
    (dag : CheckpointDag) (nodes : List (CheckpointId × List CheckpointId)) (x y : CheckpointId)
    → contains (children_of (add_nodes dag nodes) x) y
      ≡ (contains (children_of dag x) y || has_child nodes x y)
unfolding add_nodes
edges-add_nodes dag [] x y = ground arith
edges-add_nodes dag ((id, children) ∷ nodes) x y =
    let first' : contains (children_of (add_edges_to (add_node dag id) id children) x) y
        ≡ (contains (children_of dag x) y || ((id == x) && contains children y)) =
      edges-add_edges_to (add_node dag id) id children x y
      ∙ rw (children_of-add_node dag id x) refl in
    ground (arith, edges-add_nodes (add_edges_to (add_node dag id) id children) nodes x y, first')

pub edges-set_generations :
    (dag : CheckpointDag) (generation : List (CheckpointId × ℕ)) (x : CheckpointId)
    → children_of (set_generations dag generation) x ≡ children_of dag x
unfolding set_generations set_generation children_of
edges-set_generations dag [] x = refl
edges-set_generations dag ((id, gen) ∷ generation) x = elim (Bool-cases (has_node dag id)) [
  | inl there ↦
      rw (set_generations, there)
        (edges-set_generations (record dag { generation = insert id gen dag.generation }) generation
          x)
  | inr missing ↦ rw (set_generations, missing) (edges-set_generations dag generation x)
]

has_child-insert :
    (p x y : CheckpointId) (new : List CheckpointId) (extra : Bool)
    (nodes : List (CheckpointId × List CheckpointId))
    → contains new y ≡ (contains (get_or_default [] (lookup p nodes)) y || extra)
    → has_child (insert p new nodes) x y ≡ (has_child nodes x y || ((p == x) && extra))
unfolding insert lookup get_or_default
has_child-insert p x y new extra [] h = ground arith
has_child-insert p x y new extra ((id, children) ∷ nodes) h = elim (Bool-cases (id == p)) [
  | inl same ↦ let e : id ≡ p = ground arith in let h' = rw same at h in rw same (ground arith)
  | inr other ↦
      let h' = rw other at h in
      let rest = has_child-insert p x y new extra nodes h' in rw other (ground arith)
]

has_child-add :
    (p c x y : CheckpointId) (nodes : List (CheckpointId × List CheckpointId))
    → has_child (insert p (insert_new c (get_or_default [] (lookup p nodes))) nodes) x y
      ≡ (has_child nodes x y || ((p == x) && (c == y)))
has_child-add p c x y nodes =
    let old = get_or_default [] (lookup p nodes) in
    has_child-insert p x y (insert_new c old) (c == y) nodes
      (ground (arith, contains-insert_new c y old))

has_child-or_insert :
    (c x y : CheckpointId) (nodes : List (CheckpointId × List CheckpointId))
    → has_child (or_insert c [] nodes) x y ≡ has_child nodes x y
unfolding or_insert get_or_default
has_child-or_insert c x y nodes = elim (Option-cases (lookup c nodes)) [
  | inl missing ↦
      rw (or_insert, missing)
        (has_child-insert c x y [] false nodes (rw missing refl) ∙ ground arith)
  | inr (children, found) ↦ rw (or_insert, found) refl
]

-- The nodes that are read from the edge table have its edges.
pub has_child-load_nodes :
    (edges : List (CheckpointId × CheckpointId)) (nodes : List (CheckpointId × List CheckpointId))
    (x y : CheckpointId)
    → has_child (load_nodes edges nodes) x y ≡ (has_child nodes x y || has_edge edges x y)
unfolding load_nodes has_edge
has_child-load_nodes [] nodes x y = ground arith
has_child-load_nodes ((p, c) ∷ edges) nodes x y =
    let put = insert p (insert_new c (get_or_default [] (lookup p nodes))) nodes in
    ground (
      arith,
      has_child-load_nodes edges (or_insert c [] put) x y,
      has_child-or_insert c x y put,
      has_child-add p c x y nodes,
    )
