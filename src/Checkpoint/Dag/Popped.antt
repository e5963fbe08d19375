-- ===== src/Checkpoint/Dag/Popped.antt =====
-- The loop of `would_create_cycle` of src/checkpoint/dag.rs, and reachability.
use layertwine.Prelude.{
  ℕ, zero, suc, ◌+◌, ◌≤◌, ◌≡◌, ◌↔◌, refl, ◌∙◌, sym, Bool, true, false, List, [], ◌∷◌, ◌++◌, none,
  some, arith, ◌==◌, contains, length, inl, inr, Bool-cases,
}
use layertwine.Checkpoint.Dag.{unvisited, search_popped}
use layertwine.Checkpoint.Dag.Search.{
  table, Reach-expand, from_start, Pending-start, Reach, weight, work-expand, Pending, Pending-skip,
  Pending-expand, Closed, Closed-done, Closed-skip, Closed-expand, Closed-Reach,
}

module _ (m : List (ℕ × List ℕ)) (target : ℕ) where
  abbrev next : ℕ → List ℕ
  next = table m

  module _ (fuel c : ℕ) (queue visited : List ℕ) where
    popped_found :
        (c == target) ≡ true → search_popped next (suc fuel) target (c ∷ queue) visited ≡ some true
    unfolding search_popped
    popped_found p = rw (p, search_popped)

    popped_old :
        (c == target) ≡ false
        → contains visited c ≡ true
        → search_popped next (suc fuel) target (c ∷ queue) visited
          ≡ search_popped next fuel target queue visited
    unfolding search_popped
    popped_old p q = rw (p, q, search_popped)

    popped_new :
        (c == target) ≡ false
        → contains visited c ≡ false
        → search_popped next (suc fuel) target (c ∷ queue) visited
          ≡ search_popped next fuel target (queue ++ unvisited (c ∷ visited) (next c)) (c ∷ visited)
    unfolding search_popped
    popped_new p q = rw (p, q, search_popped)

  popped_empty :
      (fuel : ℕ) (visited : List ℕ) → search_popped next fuel target [] visited ≡ some false
  unfolding search_popped
  popped_empty fuel visited = refl

  popped_stuck :
      (c : ℕ) (queue visited : List ℕ) → search_popped next zero target (c ∷ queue) visited ≡ none
  unfolding search_popped
  popped_stuck c queue visited = refl

  -- The fuel is enough if it covers the queue and the edges out of what is not visited.
  pub search_popped_total :
      (fuel : ℕ) (queue visited : List ℕ)
      → length queue + weight visited m ≤ fuel
      → (b : Bool) × (search_popped next fuel target queue visited ≡ some b)
  search_popped_total fuel [] visited h = (false, popped_empty fuel visited)
  search_popped_total zero (c ∷ queue) visited h = absurd (omega arith)
  search_popped_total (suc fuel) (c ∷ queue) visited h = elim (Bool-cases (c == target)) [
    | inl found ↦ (true, popped_found fuel c queue visited found)
    | inr other ↦ elim (Bool-cases (contains visited c)) [
      | inl old ↦
          let (b, e) = search_popped_total fuel queue visited (omega arith) in
          (b, popped_old fuel c queue visited other old ∙ e)
      | inr new ↦
          let (b, e) =
            search_popped_total fuel (queue ++ unvisited (c ∷ visited) (next c)) (c ∷ visited)
              (work-expand m c fuel queue visited new h) in
          (b, popped_new fuel c queue visited other new ∙ e)
    ]
  ]

  -- What is found can be reached from where the search began.
  pub search_popped_sound :
      (a fuel : ℕ) (queue visited : List ℕ)
      → ((x : ℕ) → contains queue x ≡ true → Reach next a x)
      → search_popped next fuel target queue visited ≡ some true
      → Reach next a target
  search_popped_sound a fuel [] visited from e = absurd (ground (arith, popped_empty fuel visited))
  search_popped_sound a zero (c ∷ queue) visited from e =
      absurd (ground (arith, popped_stuck c queue visited))
  search_popped_sound a (suc fuel) (c ∷ queue) visited from e = elim (Bool-cases (c == target)) [
    | inl found ↦ from target (ground arith)
    | inr other ↦ elim (Bool-cases (contains visited c)) [
      | inl old ↦
          search_popped_sound a fuel queue visited (λ x hx. from x (ground arith))
            (sym (popped_old fuel c queue visited other old) ∙ e)
      | inr new ↦
          search_popped_sound a fuel (queue ++ unvisited (c ∷ visited) (next c)) (c ∷ visited)
            (λ x hx. Reach-expand m a c queue visited from x hx)
            (sym (popped_new fuel c queue visited other new) ∙ e)
    ]
  ]

  -- Where nothing is found, a closed set without the target holds all that waited.
  pub search_popped_complete :
      (fuel : ℕ) (queue visited : List ℕ)
      → Pending next queue visited
      → contains visited target ≡ false
      → search_popped next fuel target queue visited ≡ some false
      → (set : List ℕ) × Closed next queue visited set × (contains set target ≡ false)
  search_popped_complete fuel [] visited p t e = (visited, Closed-done next visited p, t)
  search_popped_complete zero (c ∷ queue) visited p t e =
      absurd (ground (arith, popped_stuck c queue visited))
  search_popped_complete (suc fuel) (c ∷ queue) visited p t e = elim (Bool-cases (c == target)) [
    | inl found ↦ absurd (ground (arith, popped_found fuel c queue visited))
    | inr other ↦ elim (Bool-cases (contains visited c)) [
      | inl old ↦
          let (set, h, out) =
            search_popped_complete fuel queue visited (Pending-skip next c queue visited old p) t
              (sym (popped_old fuel c queue visited other old) ∙ e) in
          (set, Closed-skip next c queue visited set old h, out)
      | inr new ↦
          let (set, h, out) =
            search_popped_complete fuel (queue ++ unvisited (c ∷ visited) (next c)) (c ∷ visited)
              (Pending-expand next c queue visited p) (ground arith)
              (sym (popped_new fuel c queue visited other new) ∙ e) in
          (set, Closed-expand next c queue visited set h, out)
    ]
  ]

  -- With fuel for all edges the loop ends, and says exactly whether the target can be reached.
  pub search_popped_decides :
      (a fuel : ℕ)
      → suc (weight [] m) ≤ fuel
      → (b : Bool) × (search_popped next fuel target (a ∷ []) [] ≡ some b)
        × ((b ≡ true) ↔ Reach next a target)
  search_popped_decides a fuel enough =
      let (b, e) = search_popped_total fuel (a ∷ []) [] (omega arith) in (b, e, decide b e)
    where
      decide :
          (b : Bool)
          → search_popped next fuel target (a ∷ []) [] ≡ some b
          → (b ≡ true) ↔ Reach next a target
      decide true e = (λ h. search_popped_sound a fuel (a ∷ []) [] (from_start a) e, λ p. refl)
      decide false e =
          let (set, h, out) =
            search_popped_complete fuel (a ∷ []) [] (Pending-start next a) refl e in
          let first : contains set a ≡ true = h.waiting a (ground arith) in
          (λ h'. absurd (cc), λ p. absurd (let m' = Closed-Reach next h first p in cc))
