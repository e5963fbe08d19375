-- ===== src/Checkpoint/Repo/Valid.antt =====
-- The invariant of a `CheckpointRepo` (src/checkpoint/repo.rs): the branches, the graph, the checkpoints and the time index agree.
use layertwine.Prelude.{
  ℕ, ◌≡◌, ◌≢◌, refl, ap, sym, ◌∙◌, Bool, true, false, ◌&&◌, ◌||◌, List, [], ◌∷◌, Option, none, some,
  get_elem?, ◌==◌, if◌then◌else◌, arith, Bool-cases, inl, inr, All, some_inj, lookup, insert,
  lookup-insert, contains,
}
use layertwine.Checkpoint.Dag.{CheckpointDag, CheckpointId, add_node, children_of, generation_of}
use layertwine.Checkpoint.Dag.Ranked.{IsRanked, add_edge-leaf, lookup-or_insert}
use layertwine.Checkpoint.TimeIndex.{TimeIndex, insert_at, entries}
use layertwine.Checkpoint.TimeIndex.Entries.{IsIndex, has, has-insert_at, insert_at-IsAbove}
use layertwine.Checkpoint.Types.{Checkpoint, Branch, set_head}
use layertwine.Storage.Checkpoints.{is_some}
use layertwine.Checkpoint.Repo.{CheckpointRepo, update_at, branch_position, add_edges}
use layertwine.Checkpoint.Repo.History.{Map, parents_of}
use layertwine.Checkpoint.Repo.Branches.{
  name-update_at, get_elem?-update_at, branch_position-update_at, All-update_at, All-heads,
}

abbrev pub has_key : CheckpointId → Map → Bool
has_key id checkpoints = is_some (lookup id checkpoints)

abbrev pub created : ℕ → Option Checkpoint → Bool
created t none = false
created t (some cp) = cp.created_at == t

pub record IsConsistent (branches : List Branch) (current : ℕ) (dag : CheckpointDag)
    (checkpoints : Map) (index : TimeIndex) : Type 0 where
  pub on_branch : (b : Branch) × (get_elem? branches current ≡ some b)
  pub names :
      (i : ℕ) (b : Branch)
      → get_elem? branches i ≡ some b
      → branch_position branches b.name ≡ some i
  pub heads : All (λ b. has_key b.head checkpoints ≡ true) branches
  pub keys : (id : CheckpointId) (cp : Checkpoint) → lookup id checkpoints ≡ some cp → cp.id ≡ id
  pub edges :
      (x y : CheckpointId) → contains (children_of dag x) y ≡ contains (parents_of checkpoints y) x
  pub closed :
      (x y : CheckpointId)
      → contains (parents_of checkpoints y) x ≡ true
      → has_key x checkpoints ≡ true
  pub ranked : IsRanked dag
  pub indexed : IsIndex index
  pub times : (t id : ℕ) → has (entries index) t id ≡ created t (lookup id checkpoints)

-- A repository is valid if its current branch exists, names are found where they stand, every head is a checkpoint, the graph
-- has the edges that the parents say, its generations rise, and the time index has each checkpoint at its time.
abbrev pub IsValid : CheckpointRepo → Type 0
IsValid repo =
    IsConsistent repo.branches repo.current_branch repo.checkpoint_dag repo.checkpoints
      repo.time_index

pub children_of-add_node :
    (dag : CheckpointDag) (id x : CheckpointId)
    → children_of (add_node dag id) x ≡ children_of dag x
unfolding add_node children_of
children_of-add_node dag id x = lookup-or_insert id x [] dag.nodes

pub generation_of-add_node :
    (dag : CheckpointDag) (id x : CheckpointId)
    → generation_of (add_node dag id) x ≡ generation_of dag x
unfolding add_node generation_of
generation_of-add_node dag id x = lookup-or_insert id x 0 dag.generation

add_node-IsRanked :
    (dag : CheckpointDag) (id : CheckpointId) → IsRanked dag → IsRanked (add_node dag id)
add_node-IsRanked dag id ranked x y e =
    rw (generation_of-add_node dag id x, generation_of-add_node dag id y)
      (ranked x y (rw (children_of-add_node dag id x) at e))

-- Edges into a node without children are all accepted.
pub add_edges_leaf :
    (dag : CheckpointDag) (parents : List CheckpointId) (id : CheckpointId)
    → (contains parents id ≡ false)
    → ((y : CheckpointId) → contains (children_of dag id) y ≡ false)
    → IsRanked dag
    → IsRanked (add_edges dag parents id)
      × ((x y : CheckpointId)
          → contains (children_of (add_edges dag parents id) x) y
            ≡ (contains (children_of dag x) y || (contains parents x && (id == y))))
unfolding add_edges
add_edges_leaf dag [] id out leaf ranked = (ranked, λ x y. ground arith)
add_edges_leaf dag (parent ∷ parents) id out leaf ranked =
    let differ : parent ≢ id = ground arith in
    let (dag', e, ranked', edges) = add_edge-leaf dag parent id differ leaf ranked in
    let (last, all) =
      add_edges_leaf dag' parents id (ground arith) (λ y. ground (arith, edges id y, leaf y))
        ranked' in
    rw e (last, λ x y. ground (arith, all x y, edges x y))

-- A new checkpoint of known parents has no children yet.
new_leaf :
    (branches : List Branch) (current : ℕ) (dag : CheckpointDag) (checkpoints : Map)
    (index : TimeIndex) (id : CheckpointId)
    → IsConsistent branches current dag checkpoints index
    → lookup id checkpoints ≡ none
    → (y : CheckpointId) → contains (children_of (add_node dag id) id) y ≡ false
new_leaf branches current dag checkpoints index id v fresh y =
    let absent : has_key id checkpoints ≡ false = rw fresh refl in
    rw (children_of-add_node dag id id) (ground (arith, v.edges id y, v.closed id y))

-- The graph with a new checkpoint of known parents.
pub entered_dag :
    (dag : CheckpointDag) (checkpoints : Map) (branches : List Branch) (current : ℕ)
    (index : TimeIndex) (cp : Checkpoint)
    → IsConsistent branches current dag checkpoints index
    → lookup cp.id checkpoints ≡ none
    → ((x : CheckpointId) → contains cp.parents x ≡ true → has_key x checkpoints ≡ true)
    → IsRanked (add_edges (add_node dag cp.id) cp.parents cp.id)
      × ((x y : CheckpointId)
          → contains (children_of (add_edges (add_node dag cp.id) cp.parents cp.id) x) y
            ≡ (contains (children_of dag x) y || (contains cp.parents x && (cp.id == y))))
entered_dag dag checkpoints branches current index cp v fresh known =
    let absent : has_key cp.id checkpoints ≡ false = rw fresh refl in
    let (ranked, edges) =
      add_edges_leaf (add_node dag cp.id) cp.parents cp.id (ground (arith, known cp.id))
        (new_leaf branches current dag checkpoints index cp.id v fresh)
        (add_node-IsRanked dag cp.id v.ranked) in
    (ranked, λ x y. rw (edges x y, children_of-add_node dag cp.id x) refl)

pub has_key-insert :
    (put x : CheckpointId) (cp : Checkpoint) (checkpoints : Map)
    → has_key x (insert put cp checkpoints) ≡ ((put == x) || has_key x checkpoints)
has_key-insert put x cp checkpoints = elim (Bool-cases (put == x)) [
  | inl same ↦ rw (lookup-insert put x cp checkpoints, same) refl
  | inr other ↦ rw (lookup-insert put x cp checkpoints, other) refl
]

pub parents_of-insert :
    (put x : CheckpointId) (cp : Checkpoint) (checkpoints : Map)
    → parents_of (insert put cp checkpoints) x
      ≡ (if put == x then cp.parents else parents_of checkpoints x)
unfolding parents_of
parents_of-insert put x cp checkpoints = elim (Bool-cases (put == x)) [
  | inl same ↦ rw (lookup-insert put x cp checkpoints, same) refl
  | inr other ↦ rw (lookup-insert put x cp checkpoints, other) refl
]

parents_of-absent :
    (id x : CheckpointId) (checkpoints : Map)
    → lookup id checkpoints ≡ none
    → contains (parents_of checkpoints id) x ≡ false
unfolding parents_of
parents_of-absent id x checkpoints h = rw h refl

-- A new checkpoint of known parents, entered into the time index, the graph, the current branch and the map.
pub entered-IsConsistent :
    (branches : List Branch) (current : ℕ) (dag : CheckpointDag) (checkpoints : Map)
    (index : TimeIndex) (now : ℕ) (cp : Checkpoint)
    → IsConsistent branches current dag checkpoints index
    → lookup cp.id checkpoints ≡ none
    → ((x : CheckpointId) → contains cp.parents x ≡ true → has_key x checkpoints ≡ true)
    → IsConsistent
        (update_at current (λ b. set_head now b cp.id) branches)
        current
        (add_edges (add_node dag cp.id) cp.parents cp.id)
        (insert cp.id cp checkpoints)
        (insert_at index cp.created_at cp.id)
entered-IsConsistent branches current dag checkpoints index now cp v fresh known =
    let (ranked, edges) = entered_dag dag checkpoints branches current index cp v fresh known in
    record {
      on_branch = (_, get_elem?-update_at current _ branches v.on_branch.0 v.on_branch.1);
      names = λ i b h.
          (let (c, found, name) = name-update_at current i now cp.id branches b h in
            rw (branch_position-update_at current now cp.id branches b.name, name)
              (v.names i c found));
      heads =
          All-update_at (λ id. has_key id (insert cp.id cp checkpoints) ≡ true) current now cp.id
            branches
            (All-heads (λ id. has_key id checkpoints ≡ true)
              (λ id. has_key id (insert cp.id cp checkpoints) ≡ true) branches
              (λ id h. (ground (arith, has_key-insert cp.id id cp checkpoints))) v.heads)
            (ground (arith, has_key-insert cp.id cp.id cp checkpoints));
      keys = λ id c h.
          (let e = sym (lookup-insert cp.id id cp checkpoints) ∙ h in
            elim (Bool-cases (cp.id == id)) [
              | inl same ↦
                  let same_id : cp.id ≡ id = ground arith in
                  let f : some cp ≡ some c = rw same at e in
                  ap (λ c. c.id) (sym (some_inj f)) ∙ same_id
              | inr other ↦ v.keys id c (rw other at e)
            ]);
      edges = λ x y. (elim (Bool-cases (cp.id == y)) [
        | inl same ↦
            let e : cp.id ≡ y = ground arith in
            rw
              (
                edges x y,
                parents_of-insert cp.id y cp checkpoints,
                same,
                v.edges x y,
                ← e,
                parents_of-absent cp.id x checkpoints fresh,
              )
              (ground arith)
        | inr other ↦
            rw (edges x y, parents_of-insert cp.id y cp checkpoints, other, v.edges x y)
              (ground arith)
      ]);
      closed = λ x y h. (elim (Bool-cases (cp.id == y)) [
        | inl same ↦
            let f : contains cp.parents x ≡ true =
              rw (parents_of-insert cp.id y cp checkpoints, same) at h in
            ground (arith, has_key-insert cp.id x cp checkpoints, known x f)
        | inr other ↦
            let f : contains (parents_of checkpoints y) x ≡ true =
              rw (parents_of-insert cp.id y cp checkpoints, other) at h in
            ground (arith, has_key-insert cp.id x cp checkpoints, v.closed x y f)
      ]);
      ranked = ranked;
      indexed = insert_at-IsAbove 0 index cp.created_at cp.id v.indexed (omega arith);
      times = λ t id. (elim (Bool-cases (cp.id == id)) [
        | inl same ↦
            let e : cp.id ≡ id = ground arith in
            let old : created t (lookup id checkpoints) ≡ false = rw (← e, fresh) refl in
            rw
              (
                has-insert_at index cp.created_at cp.id t id,
                lookup-insert cp.id id cp checkpoints,
                same,
                v.times t id,
                old,
              )
              (ground arith)
        | inr other ↦
            rw
              (
                has-insert_at index cp.created_at cp.id t id,
                lookup-insert cp.id id cp checkpoints,
                other,
                v.times t id,
              )
              (ground arith)
      ]);
    }
