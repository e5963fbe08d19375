-- ===== src/Tests/Checkpoint.antt =====
-- Runs of the version graph of src/checkpoint/dag.rs and of the time index of src/checkpoint/time_index.rs.
use layertwine.Prelude.{
  ℕ, ◌+◌, ◌≤◌, ◌≡◌, ◌↔◌, refl, true, false, ◌||◌, ◌&&◌, Bool, List, [], ◌∷◌, some, arith, ◌==◌, leb,
  lookup, get_or_default, contains, ok,
}
use layertwine.Checkpoint.Dag.{
  CheckpointDag, children_of, generation_of, add_edge_unchecked, would_create_cycle, add_edge,
  is_ancestor,
}
use layertwine.Checkpoint.Dag.Search.{Reach, here, step}
use layertwine.Checkpoint.Dag.Ranked.{
  IsRanked, is_ancestor_decides, would_create_cycle_decides, add_edge-leaf,
}
use layertwine.Checkpoint.Dag.Stale.{is_ancestor_stale, add_edge_stale}
use layertwine.Checkpoint.TimeIndex.{
  find_nearest, insert_all, insert_at, stamped, Entry, entries, from_checkpoints, query_range,
}
use layertwine.Checkpoint.TimeIndex.Nearest.{IsFull, IsClose, IsNearest, find_nearest-IsNearest}
use layertwine.Checkpoint.TimeIndex.Entries.{IsIndex, has, from_checkpoints_lem, query_range_lem}

-- An edge from 1 to 2.
abbrev one_edge : CheckpointDag
one_edge = record { nodes = (1, 2 ∷ []) ∷ (2, []) ∷ []; generation = (1, 0) ∷ (2, 1) ∷ [] }

one_edge-IsRanked : IsRanked one_edge
unfolding children_of generation_of lookup get_or_default
one_edge-IsRanked x y h = ground arith

is_ancestor_decides_example :
    (b : Bool) × (is_ancestor one_edge 1 2 ≡ some b)
    × ((b ≡ true) ↔ Reach (children_of one_edge) 1 2)
is_ancestor_decides_example = is_ancestor_decides one_edge 1 2 one_edge-IsRanked

would_create_cycle_decides_example :
    (b : Bool) × (would_create_cycle one_edge 2 1 ≡ some b)
    × ((b ≡ true) ↔ Reach (children_of one_edge) 1 2)
would_create_cycle_decides_example = would_create_cycle_decides one_edge 2 1 one_edge-IsRanked

no_children : (y : ℕ) → contains (children_of one_edge 3) y ≡ false
unfolding children_of lookup get_or_default
no_children y = refl

add_edge-leaf_example :
    (dag' : CheckpointDag) × (add_edge one_edge 2 3 ≡ some (dag', true))
    × IsRanked dag'
    × ((x y : ℕ)
        → contains (children_of dag' x) y
          ≡ (contains (children_of one_edge x) y || ((2 == x) && (3 == y))))
add_edge-leaf_example =
    add_edge-leaf one_edge 2 3 (λ h. absurd (omega arith)) no_children one_edge-IsRanked

one_two : contains (children_of one_edge 1) 2 ≡ true
unfolding children_of lookup get_or_default
one_two = refl

path : Reach (children_of one_edge) 1 2
path = step 2 here one_two

-- An edge from 2 to 3.
abbrev late_edge : CheckpointDag
late_edge = record { nodes = (2, 3 ∷ []) ∷ (3, []) ∷ []; generation = (2, 0) ∷ (3, 1) ∷ [] }

two_three : contains (children_of late_edge 2) 3 ≡ true
unfolding children_of lookup get_or_default
two_three = refl

three_known : lookup 3 late_edge.generation ≡ some 1
unfolding lookup
three_known = refl

three_low : 1 ≤ generation_of late_edge 1 + 1
unfolding generation_of lookup get_or_default
three_low = omega arith

is_ancestor_stale_example :
    (is_ancestor (add_edge_unchecked late_edge 1 2) 2 3 ≡ some false)
    × (contains (children_of (add_edge_unchecked late_edge 1 2) 2) 3 ≡ true)
is_ancestor_stale_example =
    is_ancestor_stale late_edge 1 2 3 1 (λ h. absurd (omega arith)) two_three three_known three_low

add_edge_stale_example :
    (dag' : CheckpointDag) × (add_edge (add_edge_unchecked late_edge 1 2) 3 2 ≡ some (dag', true))
    × (contains (children_of dag' 2) 3 ≡ true)
    × (contains (children_of dag' 3) 2 ≡ true)
add_edge_stale_example =
    add_edge_stale late_edge 1 2 3 1 (λ h. absurd (omega arith)) two_three three_known three_low

abbrev stamps : List Entry
stamps = (5, 1) ∷ (3, 2) ∷ (5, 3) ∷ []

stamps-IsIndex : IsIndex (from_checkpoints stamps)
stamps-IsIndex = (from_checkpoints_lem stamps).0

query_range_lem_example :
    (found : List Entry) × (query_range (from_checkpoints stamps) 3 4 ≡ ok found)
    × ((t id : ℕ)
        → has found t id ≡ ((leb 3 t && leb t 4) && has (entries (from_checkpoints stamps)) t id))
query_range_lem_example = query_range_lem (from_checkpoints stamps) 3 4

stamps-IsFull : IsFull (from_checkpoints stamps)
unfolding from_checkpoints insert_all insert_at
stamps-IsFull = ((2, refl), ((1, refl), tt))

stamps-IsClose : IsClose (from_checkpoints stamps) 4
unfolding from_checkpoints insert_all insert_at entries stamped
stamps-IsClose t id h = ground arith

find_nearest-IsNearest_example :
    IsNearest (from_checkpoints stamps) 4 (find_nearest (from_checkpoints stamps) 4)
find_nearest-IsNearest_example =
    find_nearest-IsNearest (from_checkpoints stamps) 4 stamps-IsIndex stamps-IsFull stamps-IsClose
