-- ===== src/Prelude/Maps.antt =====
-- A `HashMap` as an association list and a `HashSet` as a list, over identifiers, which are numbers.
-- No iteration order is promised by either.
use Prim.Native.Nat.{ℕ}
use mathlib.Core.Path.{◌≡◌, refl}
use mathlib.Core.Bool.{Bool, false, ◌||◌}
use mathlib.Core.List.{List, [], ◌∷◌, ◌++◌}
use mathlib.Core.Option.{Option, none, some}
use native.Mathlib.Omega.{arith}
use layertwine.Prelude.Tests.{◌==◌, if◌then◌else◌}

module _ {ℓ} {V : Type ℓ} where
  unfoldable pub lookup : ℕ → List (ℕ × V) → Option V
  lookup key [] = none
  lookup key ((k, v) ∷ entries) = if k == key then some v else lookup key entries

  unfoldable pub insert : ℕ → V → List (ℕ × V) → List (ℕ × V)
  insert key new [] = (key, new) ∷ []
  insert key new ((k, old) ∷ entries) =
      let rest = insert key new entries in
      if k == key then (key, new) ∷ entries else (k, old) ∷ rest

  unfoldable pub remove : ℕ → List (ℕ × V) → List (ℕ × V)
  remove k [] = []
  remove k ((j, w) ∷ m) = let rest = remove k m in if j == k then rest else (j, w) ∷ rest

  unfoldable pub get_or_default : V → Option V → V
  get_or_default d none = d
  get_or_default d (some v) = v

  pub lookup-insert :
      (put sought : ℕ) (new : V) (entries : List (ℕ × V))
      → lookup sought (insert put new entries)
        ≡ (if put == sought then some new else lookup sought entries)
  unfolding lookup insert
  lookup-insert put sought new [] = refl
  lookup-insert put sought new ((k, old) ∷ entries) =
      ground (arith, lookup-insert put sought new entries)

  pub lookup-remove :
      (k j : ℕ) (m : List (ℕ × V)) → lookup j (remove k m) ≡ (if k == j then none else lookup j m)
  unfolding lookup remove
  lookup-remove k j [] = ground arith
  lookup-remove k j ((i, w) ∷ m) = ground (arith, lookup-remove k j m)

abbrev pub contains : List ℕ → ℕ → Bool
contains [] a = false
contains (x ∷ xs) a = (x == a) || contains xs a

unfoldable pub insert_new : ℕ → List ℕ → List ℕ
insert_new a xs = if contains xs a then xs else xs ++ (a ∷ [])

pub contains-append :
    (xs ys : List ℕ) (a : ℕ) → contains (xs ++ ys) a ≡ (contains xs a || contains ys a)
contains-append [] ys a = refl
contains-append (x ∷ xs) ys a = ground (arith, contains-append xs ys a)

pub contains-insert_new :
    (a b : ℕ) (xs : List ℕ) → contains (insert_new a xs) b ≡ ((a == b) || contains xs b)
unfolding insert_new
contains-insert_new a b xs = ground (arith, contains-append xs (a ∷ []) b)
