-- ===== src/Core/Partition/History.antt =====
-- The pointer and the history of a partition of src/core/partition.rs.
use layertwine.Prelude.{
  ℕ, zero, suc, ◌+◌, ◌-◌, ◌<◌, ◌≡◌, refl, ap, ◌∙◌, true, List, [], ◌∷◌, ◌++◌, Option, none, some,
  length, length-append, take, get_elem?, get_last?, ltb, ◌==◌, if◌then◌else◌, arith, Bool-cases,
  inl, inr, Option-cases, take-append,
}
use layertwine.Core.Partition.{
  Partition, advance, position, shift_some, rollback_to, rollback_at, rollback_one, rollback_prev,
}

-- The current snapshot is the last entry of the history.
abbrev pub IsCurrent : Partition → Type 0
IsCurrent p = get_last? p.history ≡ some p.current_snapshot

pub get_last?-append {ℓ} : {A : Type ℓ} (xs : List A) (x : A) → get_last? (xs ++ (x ∷ [])) ≡ some x
get_last?-append [] x = refl
get_last?-append (y ∷ []) x = refl
get_last?-append (y ∷ z ∷ xs) x = get_last?-append (z ∷ xs) x

get_last?-take {ℓ} :
    {A : Type ℓ} (xs : List A) (i : ℕ)
    → i < length xs
    → get_last? (take (suc i) xs) ≡ get_elem? xs i
get_last?-take [] i h = absurd (omega arith)
get_last?-take (x ∷ xs) zero h = refl
get_last?-take (x ∷ []) (suc i) h = absurd (omega arith)
get_last?-take (x ∷ y ∷ xs) (suc i) h = get_last?-take (y ∷ xs) i (omega arith)

-- `position` gives an index of the history where the target stands.
position-some :
    (history : List ℕ) (target i : ℕ)
    → position history target ≡ some i
    → (i < length history) × (get_elem? history i ≡ some target)
unfolding position shift_some
position-some [] target i h = absurd (cc)
position-some (s ∷ history) target i h = elim (Bool-cases (s == target)) [
  | inl same ↦
      let e : s ≡ target = ground arith in
      let z : i ≡ 0 = ground arith in rw z (omega arith, ap some e)
  | inr other ↦ elim (Option-cases (position history target)) [
    | inl nowhere ↦ absurd (ground arith)
    | inr (k, found) ↦
        let z : i ≡ suc k = ground arith in
        let (less, there) = position-some history target k found in rw z (omega arith, there)
  ]
]

advance-IsCurrent : (p : Partition) (s : ℕ) → IsCurrent (advance p s)
unfolding advance
advance-IsCurrent p s = get_last?-append p.history s

-- A rollback to a snapshot keeps the pointer at the last entry, whether the snapshot is found or not; where it says
-- that it succeeded, the pointer is at the target, and what is left of the history is its beginning.
rollback_to_lem :
    (p : Partition) (target : ℕ)
    → IsCurrent p
    → IsCurrent (rollback_to p target).0
      × (if (rollback_to p target).1
          then ((rollback_to p target).0.current_snapshot ≡ target)
          else ((rollback_to p target).0 ≡ p))
unfolding rollback_to
rollback_to_lem p target wf = go (position p.history target) refl
  where
    go :
        (o : Option ℕ)
        → position p.history target ≡ o
        → IsCurrent (rollback_at o p target).0
          × (if (rollback_at o p target).1
              then ((rollback_at o p target).0.current_snapshot ≡ target)
              else ((rollback_at o p target).0 ≡ p))
    go none e = unfold rollback_at in (wf, refl)
    go (some i) e =
        let (less, there) = position-some p.history target i e in
        let one : i + 1 ≡ suc i = omega arith in
        unfold rollback_at in (rw one (get_last?-take p.history i less ∙ there), refl)

pub last_but_one :
    (history : List ℕ) (c s : ℕ)
    → get_last? history ≡ some c
    → get_elem? (history ++ (s ∷ [])) (length (history ++ (s ∷ [])) - 2) ≡ some c
last_but_one [] c s h = absurd (cc)
last_but_one (x ∷ []) c s h = h
last_but_one (x ∷ y ∷ history) c s h =
    let size : length ((y ∷ history) ++ (s ∷ [])) ≡ suc (length history) + 1 =
      omega (arith, length-append (y ∷ history) (s ∷ [])) in
    let e : length ((x ∷ y ∷ history) ++ (s ∷ [])) - 2
        ≡ suc (length ((y ∷ history) ++ (s ∷ [])) - 2) =
      omega arith in
    rw e (last_but_one (y ∷ history) c s h)

take-all_but_last :
    (history : List ℕ) (s : ℕ)
    → take (length (history ++ (s ∷ [])) - 1) (history ++ (s ∷ [])) ≡ history
take-all_but_last history s =
    let e : length (history ++ (s ∷ [])) - 1 ≡ length history =
      omega (arith, length-append history (s ∷ [])) in
    rw e (take-append history (s ∷ []))

last-long :
    (history : List ℕ) (c s : ℕ)
    → get_last? history ≡ some c
    → ltb 1 (length (history ++ (s ∷ []))) ≡ true
last-long [] c s h = absurd (cc)
last-long (x ∷ history) c s h =
    let size : length ((x ∷ history) ++ (s ∷ [])) ≡ suc (length history) + 1 =
      omega (arith, length-append (x ∷ history) (s ∷ [])) in
    ground arith

-- One step back after a step forward gives the partition as it was, and the snapshot it pointed to.
rollback_one-advance :
    (p : Partition) (s : ℕ)
    → IsCurrent p
    → rollback_one (advance p s) ≡ (p, some p.current_snapshot)
unfolding rollback_one advance rollback_prev
rollback_one-advance p s wf =
    let long = last-long p.history p.current_snapshot s wf in
    let prev = last_but_one p.history p.current_snapshot s wf in
    rw (long, prev, take-all_but_last p.history s) refl
