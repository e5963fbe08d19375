-- ===== src/Checkpoint/Repo/History/Chain.antt =====
-- The ancestry chain of src/checkpoint/repo.rs: it ends, and holds exactly the ancestors.
use layertwine.Prelude.{
  ℕ, zero, suc, ◌+◌, ◌≤◌, ◌≡◌, ◌↔◌, refl, ap, sym, ◌∙◌, true, false, List, [], ◌∷◌, ◌++◌, some,
  arith, ◌==◌, lookup, get_or_default, contains, length, inl, inr, Bool-cases,
}
use layertwine.Checkpoint.Dag.{CheckpointId, unvisited, edge_count}
use layertwine.Checkpoint.Dag.Search.{
  table, Reach, here, step, weight-start, from_start, Reach-expand, Pending, Pending-start,
  Pending-skip, Pending-expand, Closed, Closed-done, Closed-skip, Closed-expand, Closed-Reach,
  weight, work-expand,
}
use layertwine.Checkpoint.Repo.{CheckpointRepo}
use layertwine.Checkpoint.Repo.History.{
  Map, parents_of, chain_loop, parent_count, loop_fuel, get_ancestry_chain,
}

-- The parents as a table.
pub parent_table : Map → List (CheckpointId × List CheckpointId)
parent_table [] = []
parent_table ((id, cp) ∷ checkpoints) = (id, cp.parents) ∷ parent_table checkpoints

pub parents_of-table :
    (checkpoints : Map) (id : CheckpointId)
    → parents_of checkpoints id ≡ table (parent_table checkpoints) id
unfolding parents_of parent_table lookup get_or_default
parents_of-table [] id = refl
parents_of-table ((i, cp) ∷ checkpoints) id = elim (Bool-cases (i == id)) [
  | inl same ↦ rw same refl
  | inr other ↦ rw other (parents_of-table checkpoints id)
]

edge_count-parents :
    (checkpoints : Map) → edge_count (parent_table checkpoints) ≡ parent_count checkpoints
unfolding parent_table edge_count parent_count
edge_count-parents [] = refl
edge_count-parents ((id, cp) ∷ checkpoints) = omega (arith, edge_count-parents checkpoints)

enough_fuel : (checkpoints : Map) → 1 + weight [] (parent_table checkpoints) ≤ loop_fuel checkpoints
unfolding loop_fuel
enough_fuel checkpoints =
    omega (arith, edge_count-parents checkpoints, weight-start (parent_table checkpoints))

pub Reach-same :
    {f g : CheckpointId → List CheckpointId} {a b : CheckpointId}
    → ((c : CheckpointId) → f c ≡ g c)
    → Reach f a b
    → Reach g a b
Reach-same e here = here
Reach-same e (step {b} c p h) = step c (Reach-same e p) (ap (λ l. contains l c) (sym (e b)) ∙ h)

module _ (checkpoints : Map) where
  abbrev m : List (CheckpointId × List CheckpointId)
  m = parent_table checkpoints

  abbrev next : CheckpointId → List CheckpointId
  next = table (parent_table checkpoints)

  chain_old :
      (fuel id : ℕ) (queue visited result : List CheckpointId)
      → contains visited id ≡ true
      → chain_loop checkpoints (suc fuel) (id ∷ queue) visited result
        ≡ chain_loop checkpoints fuel queue visited result
  unfolding chain_loop
  chain_old fuel id queue visited result h = rw (h, chain_loop)

  chain_new :
      (fuel id : ℕ) (queue visited result : List CheckpointId)
      → contains visited id ≡ false
      → chain_loop checkpoints (suc fuel) (id ∷ queue) visited result
        ≡ chain_loop checkpoints fuel
            (queue ++ unvisited (id ∷ visited) (next id))
            (id ∷ visited)
            (id ∷ result)
  unfolding chain_loop
  chain_new fuel id queue visited result h =
      rw (h, ← (parents_of-table checkpoints id), chain_loop) refl

  -- What the loop has taken is what it has visited.
  chain_loop_lem :
      (a fuel : ℕ) (queue visited : List CheckpointId)
      → length queue + weight visited m ≤ fuel
      → Pending next queue visited
      → ((x : ℕ) → contains queue x ≡ true → Reach next a x)
      → ((x : ℕ) → contains visited x ≡ true → Reach next a x)
      → (chain : List CheckpointId) × (chain_loop checkpoints fuel queue visited visited
          ≡ some chain)
        × Closed next queue visited chain
        × ((x : ℕ) → contains chain x ≡ true → Reach next a x)
  unfolding chain_loop
  chain_loop_lem a fuel [] visited enough p from old =
      (visited, refl, Closed-done next visited p, old)
  chain_loop_lem a zero (id ∷ queue) visited enough p from old = absurd (omega arith)
  chain_loop_lem a (suc fuel) (id ∷ queue) visited enough p from old =
      elim (Bool-cases (contains visited id)) [
        | inl seen ↦
            let (chain, e, closed, sound) =
              chain_loop_lem a fuel queue visited (omega arith)
                (Pending-skip next id queue visited seen p) (λ x hx. from x (ground arith)) old in
            (
              chain,
              chain_old fuel id queue visited visited seen ∙ e,
              Closed-skip next id queue visited chain seen closed,
              sound,
            )
        | inr new ↦
            let (chain, e, closed, sound) =
              chain_loop_lem a fuel (queue ++ unvisited (id ∷ visited) (next id)) (id ∷ visited)
                (work-expand m id fuel queue visited new enough)
                (Pending-expand next id queue visited p)
                (λ x hx. Reach-expand m a id queue visited from x hx)
                (λ x hx. (elim (Bool-cases (id == x)) [
                  | inl same ↦ from x (ground arith)
                  | inr other ↦ old x (ground arith)
                ])) in
            (
              chain,
              chain_new fuel id queue visited visited new ∙ e,
              Closed-expand next id queue visited chain closed,
              sound,
            )
      ]

-- The ancestry chain always ends, and holds an id exactly if parents lead to it from the start.
pub get_ancestry_chain_lem :
    (repo : CheckpointRepo) (id : CheckpointId)
    → (chain : List CheckpointId) × (get_ancestry_chain repo id ≡ some chain)
      × ((x : CheckpointId) → (contains chain x ≡ true) ↔ Reach (parents_of repo.checkpoints) id x)
unfolding get_ancestry_chain
get_ancestry_chain_lem repo id =
    let (chain, e, closed, sound) =
      chain_loop_lem repo.checkpoints id (loop_fuel repo.checkpoints) (id ∷ []) []
        (enough_fuel repo.checkpoints) (Pending-start (next repo.checkpoints) id) (from_start id)
        (λ x hx. absurd (cc)) in
    (
      chain,
      e,
      λ x. (
        λ h. Reach-same (λ c. sym (parents_of-table repo.checkpoints c)) (sound x h),
        λ p.
            Closed-Reach (next repo.checkpoints) closed (closed.waiting id (ground arith))
              (Reach-same (parents_of-table repo.checkpoints) p),
      ),
    )
