-- ===== src/Checkpoint/Dag/Search.antt =====
-- What the searches of src/checkpoint/dag.rs share: paths, the edges still to be followed, and the closed sets.
use layertwine.Prelude.{
  ℕ, suc, ◌+◌, ◌≤◌, ◌≡◌, refl, true, false, not, ◌&&◌, ◌||◌, List, [], ◌∷◌, ◌++◌, arith, ◌==◌,
  if◌then◌else◌, lookup, get_or_default, contains, contains-append, length, length-append, inl, inr,
  Bool-cases,
}
use layertwine.Checkpoint.Dag.{unvisited, edge_count}

-- The neighbours of a node by a table.
abbrev pub table : List (ℕ × List ℕ) → ℕ → List ℕ
table m c = get_or_default [] (lookup c m)

-- The paths along `next` from `a`.
pub data Reach (next : ℕ → List ℕ) (a : ℕ) : ℕ → Type 0 where
  here : Reach next a a
  step : {b : ℕ} (c : ℕ) → Reach next a b → contains (next b) c ≡ true → Reach next a c

pub Reach-trans : {next : ℕ → List ℕ} {a b c : ℕ} → Reach next a b → Reach next b c → Reach next a c
Reach-trans p here = p
Reach-trans p (step c q e) = step c (Reach-trans p q) e

-- The edges out of nodes that are not visited.
pub weight : List ℕ → List (ℕ × List ℕ) → ℕ
weight visited [] = 0
weight visited ((k, cs) ∷ m) = (if contains visited k then 0 else length cs) + weight visited m

weight_mono :
    (c : ℕ) (visited : List ℕ) (m : List (ℕ × List ℕ)) → weight (c ∷ visited) m ≤ weight visited m
unfolding weight
weight_mono c visited [] = omega arith
weight_mono c visited ((k, cs) ∷ m) = ground (arith, weight_mono c visited m)

-- A node that is visited for the first time takes its edges off the weight.
pub weight-visit :
    (c : ℕ) (visited : List ℕ) (m : List (ℕ × List ℕ))
    → contains visited c ≡ false
    → weight (c ∷ visited) m + length (table m c) ≤ weight visited m
unfolding weight lookup get_or_default
weight-visit c visited [] h = omega arith
weight-visit c visited ((k, cs) ∷ m) h = elim (Bool-cases (k == c)) [
  | inl same ↦ let e : k ≡ c = ground arith in ground (arith, weight_mono c visited m)
  | inr other ↦ ground (arith, weight-visit c visited m h)
]

pub weight-start : (m : List (ℕ × List ℕ)) → weight [] m ≡ edge_count m
unfolding weight edge_count
weight-start [] = refl
weight-start ((k, cs) ∷ m) = omega (arith, weight-start m)

pub contains-unvisited :
    (visited cs : List ℕ) (y : ℕ)
    → contains (unvisited visited cs) y ≡ (contains cs y && not (contains visited y))
unfolding unvisited
contains-unvisited visited [] y = refl
contains-unvisited visited (c ∷ cs) y = ground (arith, contains-unvisited visited cs y)

pub length-unvisited : (visited cs : List ℕ) → length (unvisited visited cs) ≤ length cs
unfolding unvisited
length-unvisited visited [] = omega arith
length-unvisited visited (c ∷ cs) = ground (arith, length-unvisited visited cs)

-- What is left to do after a node is expanded is less than before.
pub work-expand :
    (m : List (ℕ × List ℕ)) (c fuel : ℕ) (queue visited : List ℕ)
    → contains visited c ≡ false
    → length (c ∷ queue) + weight visited m ≤ suc fuel
    → length (queue ++ unvisited (c ∷ visited) (table m c)) + weight (c ∷ visited) m ≤ fuel
work-expand m c fuel queue visited new h = omega (
  arith,
  length-append queue (unvisited (c ∷ visited) (table m c)),
  length-unvisited (c ∷ visited) (table m c),
  weight-visit c visited m new,
)

module _ (next : ℕ → List ℕ) where
  -- Every neighbour of a visited node is visited or waits.
  abbrev pub Pending : (queue visited : List ℕ) → Type 0
  Pending queue visited =
      (x y : ℕ)
      → contains visited x ≡ true
      → contains (next x) y ≡ true
      → (contains visited y || contains queue y) ≡ true

  pub Pending-skip :
      (c : ℕ) (queue visited : List ℕ)
      → contains visited c ≡ true
      → Pending (c ∷ queue) visited
      → Pending queue visited
  Pending-skip c queue visited old p x y hx hy = ground (arith, p x y hx hy)

  pub Pending-expand :
      (c : ℕ) (queue visited : List ℕ)
      → Pending (c ∷ queue) visited
      → Pending (queue ++ unvisited (c ∷ visited) (next c)) (c ∷ visited)
  Pending-expand c queue visited p x y hx hy = elim (Bool-cases (c == x)) [
    | inl same ↦
        let e : c ≡ x = ground arith in
        ground (
          arith,
          contains-append queue (unvisited (c ∷ visited) (next c)) y,
          contains-unvisited (c ∷ visited) (next c) y,
        )
    | inr other ↦ ground (arith, p x y, contains-append queue (unvisited (c ∷ visited) (next c)) y)
  ]

  -- A set that holds what waits and what is visited, and every neighbour of its nodes.
  pub record Closed (queue visited set : List ℕ) : Type 0 where
    pub waiting : (x : ℕ) → contains queue x ≡ true → contains set x ≡ true
    pub old : (x : ℕ) → contains visited x ≡ true → contains set x ≡ true
    pub closed :
        (x y : ℕ) → contains set x ≡ true → contains (next x) y ≡ true → contains set y ≡ true

  pub Closed-done : (visited : List ℕ) → Pending [] visited → Closed [] visited visited
  Closed-done visited p = record {
    waiting = λ x h. cc;
    old = λ x h. h;
    closed = λ x y hx hy. ground (arith, p x y hx hy);
  }

  pub Closed-skip :
      (c : ℕ) (queue visited set : List ℕ)
      → contains visited c ≡ true
      → Closed queue visited set
      → Closed (c ∷ queue) visited set
  Closed-skip c queue visited set old h = record {
    waiting = λ x hx. (elim (Bool-cases (c == x)) [
      | inl same ↦ let e : c ≡ x = ground arith in h.old x (rw (← e) old)
      | inr other ↦ h.waiting x (ground arith)
    ]);
    old = h.old;
    closed = h.closed;
  }

  pub Closed-expand :
      (c : ℕ) (queue visited set : List ℕ)
      → Closed (queue ++ unvisited (c ∷ visited) (next c)) (c ∷ visited) set
      → Closed (c ∷ queue) visited set
  Closed-expand c queue visited set h = record {
    waiting = λ x hx. (elim (Bool-cases (c == x)) [
      | inl same ↦ h.old x (ground arith)
      | inr other ↦
          h.waiting x (ground (arith, contains-append queue (unvisited (c ∷ visited) (next c)) x))
    ]);
    old = λ x hx. h.old x (ground arith);
    closed = h.closed;
  }

  -- A closed set holds every node that its nodes reach.
  pub Closed-Reach :
      {queue visited set : List ℕ} {a b : ℕ}
      → Closed queue visited set
      → contains set a ≡ true
      → Reach next a b
      → contains set b ≡ true
  Closed-Reach h m here = m
  Closed-Reach h m (step {b} c p e) = h.closed b c (Closed-Reach h m p) e

-- What waits after a node is expanded can be reached, if what waited before could.
pub Reach-expand :
    (m : List (ℕ × List ℕ)) (a c : ℕ) (queue visited : List ℕ)
    → ((x : ℕ) → contains (c ∷ queue) x ≡ true → Reach (table m) a x)
    → (x : ℕ) → contains (queue ++ unvisited (c ∷ visited) (table m c)) x ≡ true
    → Reach (table m) a x
Reach-expand m a c queue visited from x hx = elim (Bool-cases (contains queue x)) [
  | inl waited ↦ from x (ground arith)
  | inr pushed ↦ step x (from c (ground arith)) (
      ground (
        arith,
        contains-append queue (unvisited (c ∷ visited) (table m c)) x,
        contains-unvisited (c ∷ visited) (table m c) x,
      ))
]

-- Where a search begins: one node waits, and none is visited.
pub from_start : {next : ℕ → List ℕ} (a x : ℕ) → contains (a ∷ []) x ≡ true → Reach next a x
from_start a x h = let e : a ≡ x = ground arith in rw (← e) here

pub Pending-start : (next : ℕ → List ℕ) (a : ℕ) → Pending next (a ∷ []) []
Pending-start next a x y hx hy = cc
