-- ===== src/Checkpoint/Dag/Ranked.antt =====
-- The graphs of src/checkpoint/dag.rs in which generation numbers rise along every edge: the pruned searches on them,
-- and the edges that are added to them.
use layertwine.Prelude.{
  ℕ, suc, ◌+◌, ◌≤◌, ◌<◌, ◌≡◌, ◌≢◌, ◌↔◌, ◌⊎◌, refl, ◌∙◌, sym, Bool, true, false, ◌||◌, ◌&&◌, List,
  [], none, some, arith, ◌==◌, max, if◌then◌else◌, leb, lookup, lookup-insert, get_or_default,
  insert_new, contains, contains-insert_new, inl, inr, Bool-cases, Option-cases,
}
use layertwine.Checkpoint.Dag.{
  CheckpointDag, or_insert, children_of, generation_of, add_edge_unchecked, fuel_for,
  would_create_cycle, add_edge, add_edge_if, pruned, is_ancestor,
}
use layertwine.Checkpoint.Dag.Search.{Reach, here, step, weight, weight-start}
use layertwine.Checkpoint.Dag.Popped.{search_popped_decides}
use layertwine.Checkpoint.Dag.Children.{search_children_decides}

pub lookup-or_insert {ℓ} :
    {V : Type ℓ} (k j : ℕ) (d : V) (m : List (ℕ × V))
    → get_or_default d (lookup j (or_insert k d m)) ≡ get_or_default d (lookup j m)
unfolding or_insert get_or_default
lookup-or_insert k j d m = elim (Option-cases (lookup k m)) [
  | inl missing ↦ elim (Bool-cases (k == j)) [
    | inl same ↦
        let e : k ≡ j = ground arith in
        let absent : lookup j m ≡ none = rw (← e) missing in
        rw (missing, or_insert, lookup-insert k j d m, same, absent) refl
    | inr other ↦ rw (missing, or_insert, lookup-insert k j d m, other) refl
  ]
  | inr (v, found) ↦ rw (found, or_insert) refl
]

or_comm : (a b : Bool) → (a || b) ≡ (b || a)
or_comm a b = ground arith

or_false : (a : Bool) → (a || false) ≡ a
or_false a = ground arith

-- The edges after an edge is added: those before, and the new one.
pub edge-add_edge_unchecked :
    (dag : CheckpointDag) (p c x y : ℕ)
    → contains (children_of (add_edge_unchecked dag p c) x) y
      ≡ (contains (children_of dag x) y || ((p == x) && (c == y)))
unfolding add_edge_unchecked children_of get_or_default
edge-add_edge_unchecked dag p c x y =
    let before = or_insert c [] (or_insert p [] dag.nodes) in
    let put = insert_new c (get_or_default [] (lookup p before)) in
    let same_before : (k : ℕ)
        → get_or_default [] (lookup k before) ≡ get_or_default [] (lookup k dag.nodes) =
      λ k. lookup-or_insert c k [] (or_insert p [] dag.nodes) ∙ lookup-or_insert p k [] dag.nodes in
    elim (Bool-cases (p == x)) [
      | inl same ↦
          let e : p ≡ x = ground arith in
          rw
            (
              lookup-insert p x put before,
              same,
              contains-insert_new c y (get_or_default [] (lookup p before)),
              same_before p,
              e,
            )
            (or_comm (c == y) (contains (get_or_default [] (lookup x dag.nodes)) y))
      | inr other ↦ rw (lookup-insert p x put before, other, same_before x) (sym (or_false _))
    ]

-- The generations after an edge is added: only the child's may change.
pub generation-add_edge_unchecked :
    (dag : CheckpointDag) (p c x : ℕ)
    → generation_of (add_edge_unchecked dag p c) x ≡ (
        if c == x then max (generation_of dag c) (generation_of dag p + 1) else generation_of dag x)
unfolding add_edge_unchecked generation_of
generation-add_edge_unchecked dag p c x =
    let first = or_insert p 0 dag.generation in
    let before = or_insert c 0 first in
    let old : (k : ℕ)
        → get_or_default 0 (lookup k before) ≡ get_or_default 0 (lookup k dag.generation) =
      λ k. lookup-or_insert c k 0 first ∙ lookup-or_insert p k 0 dag.generation in
    let new = max (get_or_default 0 (lookup c before)) (get_or_default 0 (lookup p first) + 1) in
    elim (Bool-cases (c == x)) [
      | inl same ↦
          rw (lookup-insert c x new before, same, old c, lookup-or_insert p p 0 dag.generation)
            (unfold get_or_default in refl)
      | inr other ↦ rw (lookup-insert c x new before, other) (old x)
    ]

-- The generation numbers rise along every edge.
abbrev pub IsRanked : CheckpointDag → Type 0
IsRanked dag =
    (x y : ℕ) → contains (children_of dag x) y ≡ true → generation_of dag x < generation_of dag y

pub Reach-rank :
    (dag : CheckpointDag) {a b : ℕ}
    → IsRanked dag
    → Reach (children_of dag) a b
    → (a ≡ b) ⊎ (generation_of dag a < generation_of dag b)
Reach-rank dag r here = inl refl
Reach-rank dag {a} r (step {b} c p e) = elim (Reach-rank dag r p) [
  | inl same ↦ inr (rw same (r b c e))
  | inr less ↦ inr (omega (arith, r b c e))
]

enough : (dag : CheckpointDag) → suc (weight [] dag.nodes) ≤ fuel_for dag
unfolding fuel_for
enough dag = omega (arith, weight-start dag.nodes)

-- Where the generations rise along every edge, `would_create_cycle` ends, and says exactly whether the child reaches the parent.
pub would_create_cycle_decides :
    (dag : CheckpointDag) (parent child : ℕ)
    → IsRanked dag
    → (b : Bool) × (would_create_cycle dag parent child ≡ some b)
      × ((b ≡ true) ↔ Reach (children_of dag) child parent)
unfolding would_create_cycle children_of
would_create_cycle_decides dag parent child ranked = elim (Bool-cases (parent == child)) [
  | inl same ↦ let e : parent ≡ child = ground arith in (true, rw same, (λ _. rw e here, λ _. refl))
  | inr differ ↦ elim (Bool-cases (leb (generation_of dag parent) (generation_of dag child))) [
    | inl high ↦ (
      false,
      rw (differ, high),
      (λ h. absurd (cc), λ p. absurd (ground (arith, Reach-rank dag ranked p))),
    )
    | inr low ↦
        let (b, e, decided) =
          search_popped_decides dag.nodes parent child (fuel_for dag) (enough dag) in
        (b, rw (differ, low) e, decided)
  ]
]

pruned-rank :
    (dag : CheckpointDag) (a d : ℕ)
    → pruned (lookup a dag.generation) (lookup d dag.generation) ≡ true
    → generation_of dag d ≤ generation_of dag a
unfolding pruned generation_of get_or_default
pruned-rank dag a d h = ground arith

-- Where the generations rise along every edge, `is_ancestor` ends, and says exactly whether a path leads from the first node to the second.
pub is_ancestor_decides :
    (dag : CheckpointDag) (ancestor descendant : ℕ)
    → IsRanked dag
    → (b : Bool) × (is_ancestor dag ancestor descendant ≡ some b)
      × ((b ≡ true) ↔ Reach (children_of dag) ancestor descendant)
unfolding is_ancestor children_of
is_ancestor_decides dag ancestor descendant ranked = elim (Bool-cases (ancestor == descendant)) [
  | inl same ↦
      let e : ancestor ≡ descendant = ground arith in (true, rw same, (λ _. rw e here, λ _. refl))
  | inr differ ↦
      let d : ancestor ≢ descendant = ground arith in
      elim (Bool-cases
        (pruned (lookup ancestor dag.generation) (lookup descendant dag.generation))) [
          | inl cut ↦
              let high = pruned-rank dag ancestor descendant cut in
              (
                false,
                rw (differ, cut),
                (λ h. absurd (cc), λ p. absurd (ground (arith, Reach-rank dag ranked p))),
              )
          | inr kept ↦
              let (b, e, decided) =
                search_children_decides dag.nodes descendant ancestor (fuel_for dag) d
                  (enough dag) in
              (b, rw (differ, kept) e, decided)
        ]
]

-- A graph whose generations rise along every edge has no cycle: from the end of a path no edge leads back to its start.
IsRanked-acyclic :
    (dag : CheckpointDag) (x y : ℕ)
    → IsRanked dag
    → Reach (children_of dag) x y
    → ¬ (contains (children_of dag y) x ≡ true)
IsRanked-acyclic dag x y ranked p e = ground (arith, Reach-rank dag ranked p, ranked y x e)

add_edge_unchecked-IsRanked :
    (dag : CheckpointDag) (parent child : ℕ)
    → parent ≢ child
    → ((y : ℕ) → contains (children_of dag child) y ≡ false)
    → IsRanked dag
    → IsRanked (add_edge_unchecked dag parent child)
add_edge_unchecked-IsRanked dag parent child d leaf ranked x y e = ground (
  arith,
  edge-add_edge_unchecked dag parent child x y,
  generation-add_edge_unchecked dag parent child x,
  generation-add_edge_unchecked dag parent child y,
  ranked x y,
  leaf y,
)

no_path_from_leaf :
    (dag : CheckpointDag) {child x : ℕ}
    → ((y : ℕ) → contains (children_of dag child) y ≡ false)
    → Reach (children_of dag) child x
    → child ≡ x
no_path_from_leaf dag leaf here = refl
no_path_from_leaf dag leaf (step {b} c p e) =
    let same = no_path_from_leaf dag leaf p in
    absurd (let l = leaf c in let e' = rw (← same) at e in cc)

-- Where the generations rise along every edge, an edge from a node to another one that has no children
-- is accepted; the generations still rise along every edge, and the edges are those before and the new one.
pub add_edge-leaf :
    (dag : CheckpointDag) (parent child : ℕ)
    → parent ≢ child
    → ((y : ℕ) → contains (children_of dag child) y ≡ false)
    → IsRanked dag
    → (dag' : CheckpointDag) × (add_edge dag parent child ≡ some (dag', true))
      × IsRanked dag'
      × ((x y : ℕ)
          → contains (children_of dag' x) y
            ≡ (contains (children_of dag x) y || ((parent == x) && (child == y))))
unfolding add_edge
add_edge-leaf dag parent child d leaf ranked =
    let (b, e, decided) = would_create_cycle_decides dag parent child ranked in
    (
      add_edge_unchecked dag parent child,
      accept b e (λ h. d (sym (no_path_from_leaf dag leaf (decided.0 h)))),
      add_edge_unchecked-IsRanked dag parent child d leaf ranked,
      edge-add_edge_unchecked dag parent child,
    )
  where
    accept :
        (b : Bool)
        → would_create_cycle dag parent child ≡ some b
        → b ≢ true
        → add_edge_if (would_create_cycle dag parent child) dag parent child
          ≡ some (add_edge_unchecked dag parent child, true)
    accept true e n = absurd (n refl)
    accept false e n = rw e
