-- ===== src/Checkpoint/Repo/Root.antt =====
-- The first state of a `CheckpointRepo` (src/checkpoint/repo.rs), and the one that an empty storage is given.
use layertwine.Prelude.{
  ℕ, zero, suc, ◌≡◌, refl, ap, sym, ◌∙◌, false, List, [], ◌∷◌, some, Text, codes, text_eq_refl,
  get_elem?, ◌==◌, ==_refl, Bool-cases, inl, inr, some_inj, arith, ok, lookup, contains,
  get_or_default,
}
use layertwine.Core.Ids.{Bytes}
use layertwine.Core.Partition.{SnapshotId}
use layertwine.Checkpoint.Dag
use layertwine.Checkpoint.Dag.{CheckpointId, children_of, add_node}
use layertwine.Checkpoint.TimeIndex
use layertwine.Checkpoint.TimeIndex.{insert_at, entries, stamped, from_checkpoints, insert_all}
use layertwine.Checkpoint.Types.{Checkpoint, Branch, checkpoint, branch, metadata_of}
use layertwine.Checkpoint.Repo.{CheckpointRepo, create_root_checkpoint, new, branch_position}
use layertwine.Storage.Checkpoints.{
  Store, list_checkpoints, by_age, list_branches, by_name, store_checkpoint, find_checkpoint,
  store_branch, without_branch, store_metadata, replace_text, statement, load_metadata, lookup_text,
  dag_has_node, has_edge,
}
use layertwine.Checkpoint.Repo.Branches.{branch_head}
use layertwine.Checkpoint.Repo.Backed.{Agrees}
use layertwine.Checkpoint.Repo.Load.{
  load, keyed, loaded, load_checkpoint_dag, build_dag_from_checkpoints, build_from, add_edges_from,
  stamps,
}
use layertwine.Checkpoint.Repo.Commits.{IsBacked}
use layertwine.Checkpoint.Repo.History.{parents_of}
use layertwine.Checkpoint.Repo.Valid.{
  IsValid, IsConsistent, children_of-add_node, generation_of-add_node,
}

no_child : (id x y : CheckpointId) → contains (children_of (add_node Dag.new id) x) y ≡ false
unfolding Dag.children_of lookup get_or_default
no_child id x y = ap (λ l. contains l y) (children_of-add_node Dag.new id x)

alone :
    (b : Branch) (i : ℕ) (c : Branch)
    → get_elem? (b ∷ []) i ≡ some c
    → branch_position (b ∷ []) c.name ≡ some i
unfolding branch_position
alone b zero c h = rw (← (some_inj h), text_eq_refl b.name) refl
alone b (suc i) c h = absurd (cc)

-- One branch at one checkpoint without parents.
root-IsConsistent :
    (now : ℕ) (name : Text) (root : Checkpoint)
    → root.parents ≡ []
    → IsConsistent
        (branch now name root.id ∷ [])
        0
        (add_node Dag.new root.id)
        ((root.id, root) ∷ [])
        (insert_at TimeIndex.empty root.created_at root.id)
unfolding branch branch_position parents_of lookup insert_at entries stamped
root-IsConsistent now name root no_parents = record {
  on_branch = (_, refl);
  names = alone (branch now name root.id);
  heads = (rw (==_refl root.id) refl, tt);
  keys = λ id cp h. (elim (Bool-cases (root.id == id)) [
    | inl same ↦
        let e = rw same at h in
        let k : root.id ≡ id = ground arith in ap (λ c. c.id) (sym (some_inj e)) ∙ k
    | inr other ↦ absurd (let e = rw other at h in cc)
  ]);
  edges = λ x y. (no_child root.id x y ∙ sym (no_parent x y));
  closed = λ x y h. absurd (let e = no_parent x y in cc);
  ranked = λ x y h. absurd (let e = no_child root.id x y in cc);
  indexed = (omega arith, tt);
  times = λ t id. (elim (Bool-cases (root.id == id)) [
    | inl same ↦ rw same (ground arith)
    | inr other ↦ rw other (ground arith)
  ]);
}
  where
    no_parent : (x y : CheckpointId) → contains (parents_of ((root.id, root) ∷ []) y) x ≡ false
    no_parent x y = elim (Bool-cases (root.id == y)) [
      | inl same ↦ rw (same, no_parents) refl
      | inr other ↦ rw other refl
    ]

-- A new repository is valid: its only branch is at the root checkpoint, which has no parents.
pub new-IsValid :
    (now : ℕ) (blake3 : Bytes → ℕ) (initial_snapshots : List SnapshotId)
    → IsValid (new now blake3 initial_snapshots)
unfolding new create_root_checkpoint checkpoint
new-IsValid now blake3 initial_snapshots = root-IsConsistent now _ _ refl

-- A database whose tables have just been created.
abbrev pub empty_store : (room : ℕ) → Store
empty_store room = record {
  checkpoints = [];
  branches = [];
  metadata = [];
  dag_edges = [];
  dag_generations = [];
  snapshots = [];
  deltas = [];
  file_nodes = [];
  room = room;
}

-- The tables with the rows of a root checkpoint and its branch.
abbrev pub root_store : ℕ → Checkpoint → Branch → Store
root_store room root main_branch = record {
  checkpoints = root ∷ [];
  branches = main_branch ∷ [];
  metadata = (codes "current_branch", codes "main") ∷ [];
  dag_edges = [];
  dag_generations = [];
  snapshots = [];
  deltas = [];
  file_nodes = [];
  room = room;
}

pub root-Agrees :
    (now n : ℕ) (root : Checkpoint)
    → Agrees
        (branch now (codes "main") root.id ∷ [])
        0
        (add_node Dag.new root.id)
        ((root.id, root) ∷ [])
        (root_store n root (branch now (codes "main") root.id))
unfolding branch find_checkpoint lookup Dag.generation_of branch_head has_edge lookup_text
    get_or_default
root-Agrees now n root = record {
  rows = λ id. refl;
  heads = λ name. refl;
  edges = λ x y. sym (no_child root.id x y);
  generations = λ x. sym (generation_of-add_node Dag.new root.id x);
  named = λ b h. ap some (ap (λ b. b.name) (some_inj h));
  unique_ids = (refl, tt);
  unique_names = (refl, tt);
}

-- An empty database, with room for three writes, is given a root checkpoint, a main branch and its name as the current one: the
-- repository that is loaded is valid, and agrees with its storage.
pub load_empty_lem :
    (now n : ℕ) (blake3 : Bytes → ℕ)
    → (after : CheckpointRepo) × (store : Store) × (load now blake3
          (empty_store (suc (suc (suc n))))
        ≡ (ok after, store))
      × (after.storage ≡ some store)
      × IsValid after
      × IsBacked n after
unfolding load keyed list_checkpoints by_age list_branches by_name create_root_checkpoint checkpoint
    branch store_checkpoint find_checkpoint store_branch without_branch store_metadata replace_text
    statement loaded load_metadata lookup_text get_or_default branch_position load_checkpoint_dag
    dag_has_node lookup build_dag_from_checkpoints build_from add_edges_from from_checkpoints
    insert_all stamps
load_empty_lem now n blake3 =
    let root =
      checkpoint blake3 now [] [] (metadata_of (codes "system") (codes "root checkpoint")) in
    let store = root_store n root (branch now (codes "main") root.id) in
    (
      loaded store ((root.id, root) ∷ []) (branch now (codes "main") root.id ∷ []),
      store,
      refl,
      refl,
      root-IsConsistent now (codes "main") root refl,
      (root-Agrees now n root, omega arith),
    )
