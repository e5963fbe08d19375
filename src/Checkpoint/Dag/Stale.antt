-- ===== src/Checkpoint/Dag/Stale.antt =====
-- Edges of src/checkpoint/dag.rs that are added to a node with children: `add_edge` raises the generation of the child
-- and not those of the child's own descendants.
use layertwine.Prelude.{
  ℕ, ◌+◌, ◌≤◌, ◌≡◌, ◌≢◌, sym, Bool, true, false, ◌||◌, List, some, arith, ◌==◌, ==_ne, ==_refl, max,
  leb, lookup, lookup-insert, get_or_default, contains, inl, inr, Bool-cases, Option-cases,
}
use layertwine.Checkpoint.Dag.{
  CheckpointDag, or_insert, children_of, generation_of, add_edge_unchecked, would_create_cycle,
  add_edge, pruned, is_ancestor,
}
use layertwine.Checkpoint.Dag.Ranked.{lookup-or_insert, edge-add_edge_unchecked}

lookup-or_insert-some :
    (k j d v : ℕ) (m : List (ℕ × ℕ)) → lookup j m ≡ some v → lookup j (or_insert k d m) ≡ some v
unfolding or_insert
lookup-or_insert-some k j d v m h = elim (Option-cases (lookup k m)) [
  | inl missing ↦ elim (Bool-cases (k == j)) [
    | inl same ↦ let e : k ≡ j = ground arith in absurd (let f = rw e at missing in cc)
    | inr other ↦ rw (missing, or_insert, lookup-insert k j d m, other) h
  ]
  | inr (w, found) ↦ rw (found, or_insert) h
]

or_true : (a : Bool) → (a || true) ≡ true
or_true a = ground arith

lift : (g x y : ℕ) → g ≤ y + 1 → g ≤ max x (y + 1)
lift g x y h = omega arith

-- An edge to `b` comes after an edge from `b` to `c`, and lifts `b` to the height of `c` or above.
module _ (dag : CheckpointDag) (a b c gc : ℕ) (b_not_c : b ≢ c)
    (edge : contains (children_of dag b) c ≡ true) (known : lookup c dag.generation ≡ some gc)
    (low : gc ≤ generation_of dag a + 1) where
  abbrev stale : CheckpointDag
  stale = add_edge_unchecked dag a b

  edge_kept : contains (children_of stale b) c ≡ true
  edge_kept = rw (edge-add_edge_unchecked dag a b b c, edge)

  known_kept : lookup c stale.generation ≡ some gc
  unfolding add_edge_unchecked
  known_kept =
      let first = or_insert a 0 dag.generation in
      let before = or_insert b 0 first in
      rw
        (
          lookup-insert b c
              (max (get_or_default 0 (lookup b before)) (get_or_default 0 (lookup a first) + 1))
              before,
          ==_ne b c b_not_c,
        )
        (lookup-or_insert-some b c 0 gc first (lookup-or_insert-some a c 0 gc dag.generation known))

  lifted : (v : ℕ) × (lookup b stale.generation ≡ some v) × (gc ≤ v)
  unfolding add_edge_unchecked
  lifted =
      let first = or_insert a 0 dag.generation in
      let before = or_insert b 0 first in
      let new = max (get_or_default 0 (lookup b before)) (get_or_default 0 (lookup a first) + 1) in
      (
        new,
        rw (lookup-insert b b new before, ==_refl b),
        rw (lookup-or_insert a a 0 dag.generation) (
            lift gc (get_or_default 0 (lookup b before))
              (get_or_default 0 (lookup a dag.generation)) (unfold generation_of in low)),
      )

  -- Where an edge goes from `b` to another node `c` whose generation is recorded and at most one above that of `a`,
  -- and an edge from `a` to `b` is then added, `is_ancestor` denies that `b` is an ancestor of `c`, though the edge from
  -- `b` to `c` is still there.
  pub is_ancestor_stale :
      (is_ancestor (add_edge_unchecked dag a b) b c ≡ some false)
      × (contains (children_of (add_edge_unchecked dag a b) b) c ≡ true)
  unfolding is_ancestor
  is_ancestor_stale =
      let (v, e, high) = lifted in
      let cut : pruned (some v) (some gc) ≡ true = unfold pruned in ground arith in
      (rw (==_ne b c b_not_c, e, known_kept, cut), edge_kept)

  -- In the same situation `add_edge` accepts the edge from `c` back to `b`, and the graph has a cycle of two edges.
  pub add_edge_stale :
      (dag' : CheckpointDag) × (add_edge (add_edge_unchecked dag a b) c b ≡ some (dag', true))
      × (contains (children_of dag' b) c ≡ true)
      × (contains (children_of dag' c) b ≡ true)
  unfolding add_edge would_create_cycle generation_of get_or_default
  add_edge_stale =
      let (v, e, high) = lifted in
      let cut : leb gc v ≡ true = ground arith in
      let accepted : would_create_cycle stale c b ≡ some false =
        rw (==_ne c b (λ q. b_not_c (sym q)), e, known_kept, cut) in
      (
        add_edge_unchecked stale c b,
        rw accepted,
        rw (edge-add_edge_unchecked stale c b b c, edge_kept),
        rw (edge-add_edge_unchecked stale c b c b, ==_refl c, ==_refl b) (or_true _),
      )
