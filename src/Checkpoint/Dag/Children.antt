-- ===== src/Checkpoint/Dag/Children.antt =====
-- The loop of `is_ancestor` of src/checkpoint/dag.rs, and reachability.
use layertwine.Prelude.{
  ℕ, zero, suc, ◌+◌, ◌≤◌, ◌≡◌, ◌≢◌, ◌↔◌, refl, ◌∙◌, sym, Bool, true, false, List, [], ◌∷◌, ◌++◌,
  none, some, arith, ◌==◌, contains, length, inl, inr, Bool-cases,
}
use layertwine.Checkpoint.Dag.{unvisited, search_children}
use layertwine.Checkpoint.Dag.Search.{
  table, Reach-expand, from_start, Pending-start, Reach, here, step, weight, work-expand, Pending,
  Pending-skip, Pending-expand, Closed, Closed-done, Closed-skip, Closed-expand, Closed-Reach,
}

module _ (m : List (ℕ × List ℕ)) (target : ℕ) where
  abbrev next : ℕ → List ℕ
  next = table m

  module _ (fuel c : ℕ) (queue visited : List ℕ) where
    children_found :
        contains visited c ≡ false
        → contains (next c) target ≡ true
        → search_children next (suc fuel) target (c ∷ queue) visited ≡ some true
    unfolding search_children
    children_found q p = rw (q, p, search_children)

    children_old :
        contains visited c ≡ true
        → search_children next (suc fuel) target (c ∷ queue) visited
          ≡ search_children next fuel target queue visited
    unfolding search_children
    children_old q = rw (q, search_children)

    children_new :
        contains visited c ≡ false
        → contains (next c) target ≡ false
        → search_children next (suc fuel) target (c ∷ queue) visited
          ≡ search_children next fuel target
              (queue ++ unvisited (c ∷ visited) (next c))
              (c ∷ visited)
    unfolding search_children
    children_new p q = rw (p, q, search_children)

  children_empty :
      (fuel : ℕ) (visited : List ℕ) → search_children next fuel target [] visited ≡ some false
  unfolding search_children
  children_empty fuel visited = refl

  children_stuck :
      (c : ℕ) (queue visited : List ℕ) → search_children next zero target (c ∷ queue) visited ≡ none
  unfolding search_children
  children_stuck c queue visited = refl

  pub search_children_total :
      (fuel : ℕ) (queue visited : List ℕ)
      → length queue + weight visited m ≤ fuel
      → (b : Bool) × (search_children next fuel target queue visited ≡ some b)
  search_children_total fuel [] visited h = (false, children_empty fuel visited)
  search_children_total zero (c ∷ queue) visited h = absurd (omega arith)
  search_children_total (suc fuel) (c ∷ queue) visited h = elim (Bool-cases (contains visited c)) [
    | inl old ↦
        let (b, e) = search_children_total fuel queue visited (omega arith) in
        (b, children_old fuel c queue visited old ∙ e)
    | inr new ↦ elim (Bool-cases (contains (next c) target)) [
      | inl found ↦ (true, children_found fuel c queue visited new found)
      | inr other ↦
          let (b, e) =
            search_children_total fuel (queue ++ unvisited (c ∷ visited) (next c)) (c ∷ visited)
              (work-expand m c fuel queue visited new h) in
          (b, children_new fuel c queue visited new other ∙ e)
    ]
  ]

  pub search_children_sound :
      (a fuel : ℕ) (queue visited : List ℕ)
      → ((x : ℕ) → contains queue x ≡ true → Reach next a x)
      → search_children next fuel target queue visited ≡ some true
      → Reach next a target
  search_children_sound a fuel [] visited from e =
      absurd (ground (arith, children_empty fuel visited))
  search_children_sound a zero (c ∷ queue) visited from e =
      absurd (ground (arith, children_stuck c queue visited))
  search_children_sound a (suc fuel) (c ∷ queue) visited from e =
      elim (Bool-cases (contains visited c)) [
        | inl old ↦
            search_children_sound a fuel queue visited (λ x hx. from x (ground arith))
              (sym (children_old fuel c queue visited old) ∙ e)
        | inr new ↦ elim (Bool-cases (contains (next c) target)) [
          | inl found ↦ step target (from c (ground arith)) found
          | inr other ↦
              search_children_sound a fuel (queue ++ unvisited (c ∷ visited) (next c)) (c ∷ visited)
                (λ x hx. Reach-expand m a c queue visited from x hx)
                (sym (children_new fuel c queue visited new other) ∙ e)
        ]
      ]

  -- Where nothing is found, a closed set holds all that waited, and the target is next to none of it.
  pub search_children_complete :
      (fuel : ℕ) (queue visited : List ℕ)
      → Pending next queue visited
      → ((x : ℕ) → contains visited x ≡ true → contains (next x) target ≡ false)
      → search_children next fuel target queue visited ≡ some false
      → (set : List ℕ) × Closed next queue visited set
        × ((x : ℕ) → contains set x ≡ true → contains (next x) target ≡ false)
  search_children_complete fuel [] visited p t e = (visited, Closed-done next visited p, t)
  search_children_complete zero (c ∷ queue) visited p t e =
      absurd (ground (arith, children_stuck c queue visited))
  search_children_complete (suc fuel) (c ∷ queue) visited p t e =
      elim (Bool-cases (contains visited c)) [
        | inl old ↦
            let (set, h, out) =
              search_children_complete fuel queue visited (Pending-skip next c queue visited old p)
                t (sym (children_old fuel c queue visited old) ∙ e) in
            (set, Closed-skip next c queue visited set old h, out)
        | inr new ↦ elim (Bool-cases (contains (next c) target)) [
          | inl found ↦ absurd (ground (arith, children_found fuel c queue visited new))
          | inr other ↦
              let (set, h, out) =
                search_children_complete fuel (queue ++ unvisited (c ∷ visited) (next c))
                  (c ∷ visited) (Pending-expand next c queue visited p)
                  (λ x hx. elim (Bool-cases (c == x)) [
                    | inl same ↦ let q : c ≡ x = ground arith in rw (← q) other
                    | inr differs ↦ t x (ground arith)
                  ])
                  (sym (children_new fuel c queue visited new other) ∙ e) in
              (set, Closed-expand next c queue visited set h, out)
        ]
      ]

  no_path :
      {a : ℕ} {queue visited : List ℕ} (set : List ℕ)
      → Closed next queue visited set
      → contains set a ≡ true
      → ((x : ℕ) → contains set x ≡ true → contains (next x) target ≡ false)
      → a ≢ target
      → Reach next a target
      → ⊥
  no_path set h first out d here = d refl
  no_path set h first out d (step {b} c p e) = let m' = out b (Closed-Reach next h first p) in cc

  -- With fuel for all edges the loop ends, and says exactly whether the target can be reached.
  pub search_children_decides :
      (a fuel : ℕ)
      → a ≢ target
      → suc (weight [] m) ≤ fuel
      → (b : Bool) × (search_children next fuel target (a ∷ []) [] ≡ some b)
        × ((b ≡ true) ↔ Reach next a target)
  search_children_decides a fuel d enough =
      let (b, e) = search_children_total fuel (a ∷ []) [] (omega arith) in (b, e, decide b e)
    where
      decide :
          (b : Bool)
          → search_children next fuel target (a ∷ []) [] ≡ some b
          → (b ≡ true) ↔ Reach next a target
      decide true e = (λ h. search_children_sound a fuel (a ∷ []) [] (from_start a) e, λ p. refl)
      decide false e =
          let (set, h, out) =
            search_children_complete fuel (a ∷ []) [] (Pending-start next a) (λ x hx. cc) e in
          let first : contains set a ≡ true = h.waiting a (ground arith) in
          (λ h'. absurd (cc), λ p. absurd (no_path set h first out d p))
