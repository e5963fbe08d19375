-- ===== src/Checkpoint/Repo/Backed.antt =====
-- A `CheckpointRepo` (src/checkpoint/repo.rs) and the tables that persist it.
use layertwine.Prelude.{
  ℕ, suc, ◌+◌, ◌*◌, ◌≡◌, refl, ap, sym, ◌∙◌, Bool, true, false, not, ◌&&◌, ◌||◌, List, [], ◌∷◌,
  ◌++◌, Option, none, some, Text, codes, get_elem?, length, ◌==◌, ==_refl, if◌then◌else◌, arith,
  Bool-cases, Option-cases, inl, inr, ok, ◌>>>◌, lookup, insert, lookup-insert, contains,
  get_or_default,
}
use layertwine.Checkpoint.Dag.{
  CheckpointDag, CheckpointId, add_node, add_edge, add_edge_if, would_create_cycle,
  add_edge_unchecked, or_insert, children_of, generation_of,
}
use layertwine.Checkpoint.Dag.Ranked.{generation-add_edge_unchecked}
use layertwine.Checkpoint.TimeIndex.{TimeIndex}
use layertwine.Checkpoint.Types.{Checkpoint, Branch, set_head, is_empty_list}
use layertwine.Storage.Checkpoints
use layertwine.Storage.Checkpoints.{
  Store, Write, is_some, find_checkpoint, has_edge, edge_or_ignore, lookup_text,
}
use layertwine.Storage.Checkpoints.Rows.{
  statement_ok, find_checkpoint-append, has_edge-or_ignore, store_dag_edge_lem,
  generation-store_dag_edge,
}
use layertwine.Storage.Checkpoints.Unique.{UniqueIds, UniqueIds-append}
use layertwine.Checkpoint.Repo.Names.{UniqueNames, UniqueNames-headed}
use layertwine.Checkpoint.Repo.{update_at, add_edges, linked, store_dag_edges, edges_with}
use layertwine.Checkpoint.Repo.History.{Map}
use layertwine.Checkpoint.Repo.Branches.{
  branch_head, branch_head-update_at, branch_head-headed, branch_head-position, name-update_at,
}
use layertwine.Checkpoint.Repo.Valid.{IsConsistent, generation_of-add_node, has_key, entered_dag}

-- The rows say the same as the memory: each checkpoint under its id, each head under its name, the edges, the generations and
-- the name of the current branch.
pub record Agrees (branches : List Branch) (current : ℕ) (dag : CheckpointDag) (checkpoints : Map)
    (store : Store) : Type 0 where
  pub rows : (id : CheckpointId) → find_checkpoint store.checkpoints id ≡ lookup id checkpoints
  pub heads : (name : Text) → branch_head store.branches name ≡ branch_head branches name
  pub edges : (x y : CheckpointId) → has_edge store.dag_edges x y ≡ contains (children_of dag x) y
  pub generations :
      (x : CheckpointId) → get_or_default 0 (lookup x store.dag_generations) ≡ generation_of dag x
  pub named :
      (b : Branch)
      → get_elem? branches current ≡ some b
      → lookup_text (codes "current_branch") store.metadata ≡ some b.name
  pub unique_ids : UniqueIds store.checkpoints
  pub unique_names : UniqueNames store.branches

linked_known :
    (dag : CheckpointDag) (p c : CheckpointId)
    → is_some (lookup c dag.generation) ≡ true
    → is_some (lookup c (linked dag (add_edge dag p c)).generation) ≡ true
unfolding add_edge add_edge_if add_edge_unchecked
linked_known dag p c h = known (would_create_cycle dag p c)
  where
    known :
        (o : Option Bool)
        → is_some (lookup c (linked dag (add_edge_if o dag p c)).generation) ≡ true
    known none = h
    known (some true) = h
    known (some false) =
        rw (lookup-insert c c _ (or_insert c 0 (or_insert p 0 dag.generation)), ==_refl c) refl

linked_other :
    (dag : CheckpointDag) (p c x : CheckpointId)
    → (c == x) ≡ false
    → generation_of (linked dag (add_edge dag p c)) x ≡ generation_of dag x
unfolding add_edge add_edge_if
linked_other dag p c x h = other (would_create_cycle dag p c)
  where
    other :
        (o : Option Bool)
        → generation_of (linked dag (add_edge_if o dag p c)) x ≡ generation_of dag x
    other none = refl
    other (some true) = refl
    other (some false) = generation-add_edge_unchecked dag p c x ∙ rw h refl

pub add_edges_known :
    (dag : CheckpointDag) (parents : List CheckpointId) (c : CheckpointId)
    → is_some (lookup c dag.generation) ≡ true
    → is_some (lookup c (add_edges dag parents c).generation) ≡ true
unfolding add_edges
add_edges_known dag [] c h = h
add_edges_known dag (p ∷ parents) c h =
    add_edges_known (linked dag (add_edge dag p c)) parents c (linked_known dag p c h)

pub add_edges_other :
    (dag : CheckpointDag) (parents : List CheckpointId) (c x : CheckpointId)
    → (c == x) ≡ false
    → generation_of (add_edges dag parents c) x ≡ generation_of dag x
unfolding add_edges
add_edges_other dag [] c x h = refl
add_edges_other dag (p ∷ parents) c x h =
    add_edges_other (linked dag (add_edge dag p c)) parents c x h ∙ linked_other dag p c x h

pub add_node_known :
    (dag : CheckpointDag) (id : CheckpointId)
    → is_some (lookup id (add_node dag id).generation) ≡ true
unfolding add_node or_insert
add_node_known dag id = elim (Option-cases (lookup id dag.generation)) [
  | inl missing ↦ rw (missing, or_insert, lookup-insert id id 0 dag.generation, ==_refl id) refl
  | inr (gen, found) ↦ rw (found, or_insert, found) refl
]

-- The rows of the edges into a child.
store_dag_edges_lem :
    (parents : List CheckpointId) (c gen n : ℕ) (s : Store)
    → s.room ≡ 3 * length parents + n
    → (s' : Store) × (store_dag_edges parents c gen s ≡ (ok tt, s'))
      × (s'.room ≡ n)
      × (s'.checkpoints ≡ s.checkpoints)
      × (s'.branches ≡ s.branches)
      × (s'.metadata ≡ s.metadata)
      × ((x y : CheckpointId)
          → has_edge s'.dag_edges x y
            ≡ (has_edge s.dag_edges x y || (contains parents x && (c == y))))
      × ((x : CheckpointId)
          → get_or_default 0 (lookup x s'.dag_generations) ≡ (
              if (c == x) && not (is_empty_list parents)
              then gen
              else get_or_default 0 (lookup x s.dag_generations)))
unfolding store_dag_edges
store_dag_edges_lem [] c gen n s h =
    (s, refl, omega arith, refl, refl, refl, λ x y. ground arith, λ x. ground arith)
store_dag_edges_lem (p ∷ parents) c gen n s h =
    let r = 3 * length parents + n in
    let first = store_dag_edge_lem p c gen s r (omega arith) in
    let (s', e, room, rows, branches, metadata, edges, generations) =
      store_dag_edges_lem parents c gen n
        (record s {
          dag_edges = edge_or_ignore p c s.dag_edges;
          dag_generations = or_insert p 0 (insert c gen s.dag_generations);
          room = r;
        })
        refl in
    (
      s',
      rw first e,
      room,
      rows,
      branches,
      metadata,
      λ x y. ground (arith, edges x y, has_edge-or_ignore s.dag_edges p c x y),
      λ x. ground (arith, generations x, generation-store_dag_edge p c x gen s.dag_generations),
    )

pub known_generation :
    (dag : CheckpointDag) (id : CheckpointId)
    → is_some (lookup id dag.generation) ≡ true
    → lookup id dag.generation ≡ some (generation_of dag id)
unfolding generation_of get_or_default
known_generation dag id h = elim (Option-cases (lookup id dag.generation)) [
  | inl missing ↦ absurd (let e = rw missing at h in cc)
  | inr (gen, found) ↦ rw found refl
]

-- The three writes of a commit: the checkpoint's row, the edges from its parents, and its branch's head.
pub persisted_lem :
    (cp : Checkpoint) (name : Text) (gen now n : ℕ) (store : Store)
    → find_checkpoint store.checkpoints cp.id ≡ none
    → store.room ≡ 2 + (3 * length cp.parents + n)
    → (store' : Store) × ((Checkpoints.store_checkpoint cp store
          >>> edges_with (some gen) cp.parents cp.id
          >>> Checkpoints.update_branch_head now name cp.id)
        ≡ (ok tt, store'))
      × (store'.room ≡ n)
      × (store'.checkpoints ≡ store.checkpoints ++ (cp ∷ []))
      × (store'.branches ≡ Checkpoints.headed now name cp.id store.branches)
      × (store'.metadata ≡ store.metadata)
      × ((x y : CheckpointId)
          → has_edge store'.dag_edges x y
            ≡ (has_edge store.dag_edges x y || (contains cp.parents x && (cp.id == y))))
      × ((x : CheckpointId)
          → get_or_default 0 (lookup x store'.dag_generations) ≡ (
              if (cp.id == x) && not (is_empty_list cp.parents)
              then gen
              else get_or_default 0 (lookup x store.dag_generations)))
unfolding Checkpoints.store_checkpoint Checkpoints.update_branch_head
persisted_lem cp name gen now n store missing room =
    let s1 : Store = record store {
      checkpoints = store.checkpoints ++ (cp ∷ []);
      room = 3 * length cp.parents + suc n;
    } in
    let first : Checkpoints.store_checkpoint cp store ≡ (ok tt, s1) =
      statement_ok _ store (3 * length cp.parents + suc n) (omega arith) ∙ rw missing refl in
    let (s2, e, room2, rows, branches, metadata, edges, generations) =
      store_dag_edges_lem cp.parents cp.id gen (suc n) s1 refl in
    (
      record s2 { branches = Checkpoints.headed now name cp.id s2.branches; room = n },
      rw (first, e) (statement_ok _ s2 n room2),
      refl,
      rows,
      ap (Checkpoints.headed now name cp.id) branches,
      metadata,
      edges,
      generations,
    )

-- The rows that persist a new checkpoint, and its branch's new head.
pub entered-Agrees :
    (branches : List Branch) (current : ℕ) (dag : CheckpointDag) (checkpoints : Map)
    (store store' : Store) (index : TimeIndex) (now : ℕ) (cp : Checkpoint) (b : Branch)
    → IsConsistent branches current dag checkpoints index
    → Agrees branches current dag checkpoints store
    → get_elem? branches current ≡ some b
    → lookup cp.id checkpoints ≡ none
    → is_empty_list cp.parents ≡ false
    → ((x : CheckpointId) → contains cp.parents x ≡ true → has_key x checkpoints ≡ true)
    → store'.checkpoints ≡ store.checkpoints ++ (cp ∷ [])
    → store'.branches ≡ Checkpoints.headed now b.name cp.id store.branches
    → store'.metadata ≡ store.metadata
    → ((x y : CheckpointId)
        → has_edge store'.dag_edges x y
          ≡ (has_edge store.dag_edges x y || (contains cp.parents x && (cp.id == y))))
    → ((x : CheckpointId)
        → get_or_default 0 (lookup x store'.dag_generations) ≡ (
            if (cp.id == x) && not (is_empty_list cp.parents)
            then generation_of (add_edges (add_node dag cp.id) cp.parents cp.id) cp.id
            else get_or_default 0 (lookup x store.dag_generations)))
    → Agrees
        (update_at current (λ b. set_head now b cp.id) branches)
        current
        (add_edges (add_node dag cp.id) cp.parents cp.id)
        (insert cp.id cp checkpoints)
        store'
entered-Agrees branches current dag checkpoints store store' index now cp b v a here fresh
      some_parent known rows branches' metadata edges generations =
    let missing : find_checkpoint store.checkpoints cp.id ≡ none = a.rows cp.id ∙ fresh in
    let place = v.names current b here in
    let known_head = a.heads b.name ∙ branch_head-position branches b current here place in
    record {
      rows = λ id.
          rw (rows, find_checkpoint-append store.checkpoints cp id missing, a.rows id)
            (sym (lookup-insert cp.id id cp checkpoints));
      heads = λ name.
          rw
            (
              branches',
              branch_head-headed now cp.id b.name name store.branches b.head known_head,
              a.heads name,
            )
            (sym (branch_head-update_at current now cp.id branches b name here place));
      edges = λ x y.
          rw
            (
              edges x y,
              a.edges x y,
              (entered_dag dag checkpoints branches current index cp v fresh known).1 x y,
            )
            refl;
      generations = λ x. (elim (Bool-cases (cp.id == x)) [
        | inl same ↦
            let e : cp.id ≡ x = ground arith in rw (generations x, same, some_parent, e) refl
        | inr other ↦
            rw
              (
                generations x,
                other,
                a.generations x,
                add_edges_other (add_node dag cp.id) cp.parents cp.id x other,
                generation_of-add_node dag cp.id x,
              )
              refl
      ]);
      named = λ c h.
          (let (d, found, name) = name-update_at current current now cp.id branches c h in
            rw (metadata, name) (a.named d found));
      unique_ids = rw rows (UniqueIds-append store.checkpoints cp a.unique_ids missing);
      unique_names =
          rw branches' (UniqueNames-headed now cp.id b.name store.branches a.unique_names);
    }
