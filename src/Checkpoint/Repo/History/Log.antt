-- ===== src/Checkpoint/Repo/History/Log.antt =====
-- The log of src/checkpoint/repo.rs, against the ancestry chain.
use mathlib.Core.List.{append_assoc, append-nil}
use layertwine.Prelude.{
  ℕ, zero, suc, ◌≤◌, ◌≡◌, refl, ap, sym, ◌∙◌, List, [], ◌∷◌, ◌++◌, Option, none, some, arith, leb,
  lookup, contains, length, length-append, take, take-append, inl, inr, Bool-cases, some_inj,
}
use layertwine.Checkpoint.Dag.{CheckpointId, unvisited}
use layertwine.Checkpoint.Types.{Checkpoint}
use layertwine.Checkpoint.Repo.{CheckpointRepo}
use layertwine.Checkpoint.Repo.History.{
  Map, parents_of, pushed, log_loop, chain_loop, loop_fuel, log_from, get_ancestry_chain,
}
use layertwine.Checkpoint.Repo.History.Chain.{get_ancestry_chain_lem}

-- The checkpoints of a chain, its last id first; ids that the map does not have are left out.
pub found : Map → List CheckpointId → List Checkpoint
found checkpoints [] = []
found checkpoints (id ∷ chain) = pushed (lookup id checkpoints) (found checkpoints chain)

module _ (checkpoints : Map) where
  pushed-extends :
      (o : Option Checkpoint) (result : List Checkpoint)
      → (more : List Checkpoint) × (pushed o result ≡ result ++ more) × (length more ≤ 1)
  pushed-extends none result = ([], sym (append-nil result), omega arith)
  pushed-extends (some cp) result = (cp ∷ [], refl, omega arith)

  chain_extends :
      (fuel : ℕ) (queue visited acc chain : List CheckpointId)
      → chain_loop checkpoints fuel queue visited acc ≡ some chain
      → (more : List Checkpoint) × (found checkpoints chain ≡ found checkpoints acc ++ more)
  unfolding chain_loop found
  chain_extends fuel [] visited acc chain e =
      ([], ap (found checkpoints) (sym (some_inj e)) ∙ sym (append-nil (found checkpoints acc)))
  chain_extends zero (id ∷ queue) visited acc chain e = absurd (cc)
  chain_extends (suc fuel) (id ∷ queue) visited acc chain e =
      elim (Bool-cases (contains visited id)) [
        | inl seen ↦ chain_extends fuel queue visited acc chain (rw (seen, chain_loop) at e)
        | inr new ↦
            let (rest, e') =
              chain_extends fuel (queue ++ unvisited (id ∷ visited) (parents_of checkpoints id))
                (id ∷ visited) (id ∷ acc) chain (rw (new, chain_loop) at e) in
            let (one, f, _) = pushed-extends (lookup id checkpoints) (found checkpoints acc) in
            (
              one ++ rest,
              e' ∙ ap (λ l. l ++ rest) f ∙ append_assoc (found checkpoints acc) one rest,
            )
      ]

  take_all : (n : ℕ) (xs : List Checkpoint) → length xs ≤ n → take n xs ≡ xs
  take_all zero [] h = refl
  take_all (suc n) [] h = refl
  take_all zero (x ∷ xs) h = absurd (omega arith)
  take_all (suc n) (x ∷ xs) h = ap (λ l. x ∷ l) (take_all n xs (omega arith))

  log_loop_lem :
      (fuel count : ℕ) (queue visited acc chain : List CheckpointId)
      → chain_loop checkpoints fuel queue visited acc ≡ some chain
      → length (found checkpoints acc) ≤ count
      → log_loop checkpoints fuel count queue visited (found checkpoints acc)
        ≡ some (take count (found checkpoints chain))
  unfolding chain_loop log_loop found
  log_loop_lem fuel count [] visited acc chain e short =
      let same = some_inj e in
      ap some (
        sym (take_all count (found checkpoints acc) short)
        ∙ ap (λ c. take count (found checkpoints c)) same)
  log_loop_lem zero count (id ∷ queue) visited acc chain e short = absurd (cc)
  log_loop_lem (suc fuel) count (id ∷ queue) visited acc chain e short =
      elim (Bool-cases (leb count (length (found checkpoints acc)))) [
        | inl full ↦
            let (more, e') = chain_extends (suc fuel) (id ∷ queue) visited acc chain e in
            let exact : length (found checkpoints acc) ≡ count = ground arith in
            rw (full, log_loop)
              (ap some (sym (take-append (found checkpoints acc) more) ∙ rw (exact, e') refl))
        | inr room ↦ elim (Bool-cases (contains visited id)) [
          | inl seen ↦
              rw (room, seen, log_loop)
                (log_loop_lem fuel count queue visited acc chain (rw (seen, chain_loop) at e) short)
          | inr new ↦
              let (one, f, l) = pushed-extends (lookup id checkpoints) (found checkpoints acc) in
              let short' : length (found checkpoints (id ∷ acc)) ≤ count =
                rw (f, length-append (found checkpoints acc) one) (ground arith) in
              rw (room, new, log_loop)
                (log_loop_lem fuel count
                  (queue ++ unvisited (id ∷ visited) (parents_of checkpoints id)) (id ∷ visited)
                  (id ∷ acc) chain (rw (new, chain_loop) at e) short')
        ]
      ]

-- The log always ends: it is the first `count` checkpoints of the ancestry chain of its start, read from its end, without the
-- ids that the repository does not have.
pub log_from_lem :
    (repo : CheckpointRepo) (start : CheckpointId) (count : ℕ)
    → (chain : List CheckpointId) × (get_ancestry_chain repo start ≡ some chain)
      × (log_from repo start count ≡ some (take count (found repo.checkpoints chain)))
unfolding log_from get_ancestry_chain found
log_from_lem repo start count =
    let (chain, e, _) = get_ancestry_chain_lem repo start in
    (
      chain,
      e,
      log_loop_lem repo.checkpoints (loop_fuel repo.checkpoints) count (start ∷ []) [] [] chain e
          (omega arith),
    )
