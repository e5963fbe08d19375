-- ===== src/Checkpoint/Repo/Reload/RoundTrip.antt =====
-- A `CheckpointRepo` that is loaded again from its storage (src/checkpoint/repo.rs).
use layertwine.Prelude.{
  ℕ, ◌≡◌, refl, ap, sym, ◌∙◌, true, false, List, [], none, Text, Bool-cases, Option-cases,
  List-cases, inl, inr, ok, lookup, contains, get_or_default,
}
use layertwine.Core.Ids.{Bytes}
use layertwine.Checkpoint.Dag
use layertwine.Checkpoint.Dag.{CheckpointDag, CheckpointId, children_of}
use layertwine.Checkpoint.TimeIndex.{from_checkpoints, entries}
use layertwine.Checkpoint.TimeIndex.Entries.{has, from_checkpoints_lem}
use layertwine.Checkpoint.Types.{Branch}
use layertwine.Storage.Checkpoints
use layertwine.Storage.Checkpoints.{Store, by_age, find_checkpoint, load_nodes, insert_generations}
use layertwine.Storage.Checkpoints.Unique.{by_age_lem}
use layertwine.Checkpoint.Repo.{CheckpointRepo, current}
use layertwine.Checkpoint.Repo.Load.{
  load, loaded, keyed, load_checkpoint_dag, first_head, add_nodes, build_dag_from_checkpoints,
  stamps,
}
use layertwine.Checkpoint.Repo.History.{Map, parents_of}
use layertwine.Checkpoint.Repo.Branches.{branch_head, branch_head-position, All-get}
use layertwine.Checkpoint.Repo.Names.{by_name_lem, head_position}
use layertwine.Checkpoint.Repo.Valid.{IsValid, created, has_key}
use layertwine.Checkpoint.Repo.Backed.{Agrees}
use layertwine.Checkpoint.Repo.Reload.{
  lookup-keyed, IsMap, keyed-IsMap, has-stamps, has_parent-lookup, edges-build_from,
  edges-add_nodes, edges-set_generations, has_child-load_nodes,
}

-- Two repositories show the same: checkpoints, heads, the current branch, edges and times.
pub record SameView (before after : CheckpointRepo) : Type 0 where
  pub checkpoints : (id : CheckpointId) → lookup id after.checkpoints ≡ lookup id before.checkpoints
  pub heads : (name : Text) → branch_head after.branches name ≡ branch_head before.branches name
  pub on_branch :
      (b : Branch)
      → current before ≡ ok b
      → (c : Branch) × (current after ≡ ok c) × (c.name ≡ b.name) × (c.head ≡ b.head)
  pub edges :
      (x y : CheckpointId)
      → contains (children_of after.checkpoint_dag x) y
        ≡ contains (children_of before.checkpoint_dag x) y
  pub times :
      (t id : ℕ) → has (entries after.time_index) t id ≡ has (entries before.time_index) t id

-- The checkpoints that are collected from the table.
abbrev collected : Store → Map
collected store = keyed (Checkpoints.list_checkpoints store) []

module _ (repo : CheckpointRepo) (store : Store) (v : IsValid repo)
    (a : Agrees repo.branches repo.current_branch repo.checkpoint_dag repo.checkpoints store) where
  collected_same : (id : CheckpointId) → lookup id (collected store) ≡ lookup id repo.checkpoints
  unfolding Checkpoints.list_checkpoints lookup
  collected_same id =
      let (unique, same) = by_age_lem store.checkpoints a.unique_ids in
      lookup-keyed (by_age store.checkpoints) [] id unique
      ∙ rw (same id, a.rows id)
          (elim (Option-cases (lookup id repo.checkpoints)) [
            | inl missing ↦ rw missing refl
            | inr (cp, found) ↦ rw found refl
          ])

  collected-IsMap : IsMap (collected store)
  collected-IsMap = keyed-IsMap (Checkpoints.list_checkpoints store) [] tt

  no_edge : (x y : CheckpointId) → contains (children_of Dag.new x) y ≡ false
  unfolding children_of lookup get_or_default
  no_edge x y = refl

  same_parents :
      (x y : CheckpointId)
      → contains (parents_of (collected store) y) x ≡ contains (parents_of repo.checkpoints y) x
  unfolding parents_of
  same_parents x y = rw (collected_same y) refl

  loaded_edges :
      (branches : List Branch) (x y : CheckpointId)
      → contains (children_of (load_checkpoint_dag store branches (collected store)) x) y
        ≡ contains (children_of repo.checkpoint_dag x) y
  unfolding load_checkpoint_dag build_dag_from_checkpoints Checkpoints.load_dag
  loaded_edges branches x y =
      elim (Bool-cases (Checkpoints.dag_has_node store (first_head branches))) [
        | inl stored ↦ rw stored (
            rw
              (
                edges-set_generations (add_nodes Dag.new (load_nodes store.dag_edges []))
                    (insert_generations store.dag_generations []) x,
                edges-add_nodes Dag.new (load_nodes store.dag_edges []) x y,
                has_child-load_nodes store.dag_edges [] x y,
                no_edge x y,
              )
              (a.edges x y))
        | inr rebuilt ↦ rw rebuilt (
            rw
              (
                edges-build_from Dag.new (collected store) x y,
                has_parent-lookup (collected store) x y collected-IsMap,
                no_edge x y,
              )
              (same_parents x y ∙ sym (v.edges x y)))
      ]

  loaded_times :
      (t id : ℕ)
      → has (entries (from_checkpoints (stamps (collected store)))) t id
        ≡ has (entries repo.time_index) t id
  loaded_times t id =
      (let (_, _, same) = from_checkpoints_lem (stamps (collected store)) in same t id)
      ∙ has-stamps (collected store) t id collected-IsMap
      ∙ ap (created t) (collected_same id)
      ∙ sym (v.times t id)

  loaded_heads :
      (name : Text)
      → branch_head (Checkpoints.list_branches store) name ≡ branch_head repo.branches name
  unfolding Checkpoints.list_branches
  loaded_heads name = by_name_lem store.branches a.unique_names name ∙ a.heads name

  loaded_branch :
      (b : Branch)
      → current repo ≡ ok b
      → (c : Branch) × (current (loaded store (collected store) (Checkpoints.list_branches store))
          ≡ ok c)
        × (c.name ≡ b.name)
        × (c.head ≡ b.head)
  unfolding current loaded Checkpoints.load_metadata get_or_default
  loaded_branch b h =
      let (b0, here) = v.on_branch in
      let same : b0 ≡ b = let e = rw here at h in cc in
      let found =
        loaded_heads b0.name
        ∙ branch_head-position repo.branches b0 repo.current_branch here
            (v.names repo.current_branch b0 here) in
      let (i, c, position, there, named, head) =
        head_position (Checkpoints.list_branches store) b0.name b0.head found in
      (
        c,
        rw (a.named b0 here, position, there) refl,
        named ∙ ap (λ b. b.name) same,
        head ∙ ap (λ b. b.head) same,
      )

  -- The repository that is read shows the same.
  loaded-SameView : SameView repo (loaded store (collected store) (Checkpoints.list_branches store))
  unfolding loaded
  loaded-SameView = record {
    checkpoints = collected_same;
    heads = loaded_heads;
    on_branch = loaded_branch;
    edges = loaded_edges (Checkpoints.list_branches store);
    times = loaded_times;
  }

  collected_some : (collected store ≡ []) → ⊥
  unfolding lookup
  collected_some empty =
      let (b, here) = v.on_branch in
      let known =
        All-get (λ b. has_key b.head repo.checkpoints ≡ true) repo.current_branch repo.branches b
          v.heads here in
      let missing : lookup b.head repo.checkpoints ≡ none =
        sym (collected_same b.head) ∙ ap (λ m. lookup b.head m) empty in
      (let e = rw missing at known in cc)

  -- A valid repository is loaded from a storage that agrees with it: the result shows the same checkpoints, heads, current branch,
  -- edges and times, and nothing is written.
  pub load_lem :
      (now : ℕ) (blake3 : Bytes → ℕ)
      → (after : CheckpointRepo) × (load now blake3 store ≡ (ok after, store)) × SameView repo after
  unfolding load
  load_lem now blake3 = (
    loaded store (collected store) (Checkpoints.list_branches store),
    elim (List-cases (collected store)) [
      | inl empty ↦ absurd (collected_some empty)
      | inr (c, rest, e) ↦ rw e refl
    ],
    loaded-SameView,
  )
