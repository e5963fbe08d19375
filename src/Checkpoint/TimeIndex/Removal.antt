-- ===== src/Checkpoint/TimeIndex/Removal.antt =====
-- What is left in the time index of src/checkpoint/time_index.rs after a removal.
use layertwine.Prelude.{
  ℕ, suc, ◌<◌, ◌≤◌, ◌≡◌, refl, false, not, ◌&&◌, List, [], ◌∷◌, ◌++◌, ◌==◌, arith, Bool-cases, inl,
  inr,
}
use layertwine.Checkpoint.TimeIndex.{TimeIndex, retain, keep, remove_at, stamped, entries}
use layertwine.Checkpoint.TimeIndex.Entries.{IsAbove, IsIndex, has, has-append, has-stamped-key}

has-retain :
    (k : ℕ) (ids : List ℕ) (i t id : ℕ)
    → has (stamped k (retain ids i)) t id ≡ (not (i == id) && has (stamped k ids) t id)
unfolding stamped retain
has-retain k [] i t id = ground arith
has-retain k (j ∷ ids) i t id = elim (Bool-cases (j == i)) [
  | inl same ↦ rw same (ground (arith, has-retain k ids i t id))
  | inr other ↦ rw other (ground (arith, has-retain k ids i t id))
]

entries-keep :
    (k : ℕ) (ids : List ℕ) (index : TimeIndex)
    → entries (keep k ids index) ≡ stamped k ids ++ entries index
unfolding entries stamped
entries-keep k [] index = refl
entries-keep k (i ∷ ids) index = refl

-- In buckets above a time there is no entry of that time.
pub has-above :
    (low : ℕ) (index : TimeIndex) (t id : ℕ)
    → IsAbove low index
    → t < low
    → has (entries index) t id ≡ false
unfolding entries
has-above low [] t id h l = refl
has-above low ((k, ids) ∷ index) t id (m, h) l =
    let apart : (k == t) ≡ false = ground arith in
    rw (has-append (stamped k ids) (entries index) t id, has-stamped-key k ids t id apart)
      (has-above (suc k) index t id h (omega arith))

has-remove_at-above :
    (low : ℕ) (index : TimeIndex) (u i t id : ℕ)
    → IsAbove low index
    → has (entries (remove_at index u i)) t id
      ≡ (not (u == t && i == id) && has (entries index) t id)
unfolding remove_at entries
has-remove_at-above low [] u i t id h = ground arith
has-remove_at-above low ((k, ids) ∷ index) u i t id (m, h) =
    let whole = has-append (stamped k ids) (entries index) t id in
    elim (Bool-cases (k == u)) [
      | inl same ↦ elim (Bool-cases (k == t)) [
        | inl here ↦
            let later : has (entries index) t id ≡ false =
              has-above (suc k) index t id h (ground arith) in
            rw
              (
                same,
                entries-keep k (retain ids i) index,
                has-append (stamped k (retain ids i)) (entries index) t id,
                has-retain k ids i t id,
                whole,
                later,
              )
              (ground arith)
        | inr there ↦
            let none' = has-stamped-key k ids t id there in
            rw
              (
                same,
                entries-keep k (retain ids i) index,
                has-append (stamped k (retain ids i)) (entries index) t id,
                has-retain k ids i t id,
                whole,
                none',
              )
              (ground arith)
      ]
      | inr other ↦
          let rest = has-append (stamped k ids) (entries (remove_at index u i)) t id in
          let ih = has-remove_at-above (suc k) index u i t id h in
          elim (Bool-cases (k == t)) [
            | inl here ↦ rw (other, rest, ih, whole) (ground arith)
            | inr there ↦
                rw (other, rest, ih, whole, has-stamped-key k ids t id there) (ground arith)
          ]
    ]

remove_at-IsAbove :
    (low : ℕ) (index : TimeIndex) (t id : ℕ)
    → IsAbove low index
    → IsAbove low (remove_at index t id)
unfolding remove_at
remove_at-IsAbove low [] t id h = tt
remove_at-IsAbove low ((k, ids) ∷ index) t id (m, h) = elim (Bool-cases (k == t)) [
  | inl same ↦ rw same (kept (retain ids id))
  | inr other ↦ rw other (m, remove_at-IsAbove (suc k) index t id h)
]
  where
    wider : (a b : ℕ) (i : TimeIndex) → a ≤ b → IsAbove b i → IsAbove a i
    wider a b [] l g = tt
    wider a b ((j, is) ∷ i) l (n, g) = (omega arith, g)

    kept : (is : List ℕ) → IsAbove low (keep k is index)
    kept [] = wider low (suc k) index (omega arith) h
    kept (i ∷ is) = (m, h)

-- Removing a checkpoint from an index whose keys ascend takes out exactly its entry, and the keys still ascend.
remove_at_lem :
    (index : TimeIndex) (u i : ℕ)
    → IsIndex index
    → IsIndex (remove_at index u i)
      × ((t id : ℕ)
          → has (entries (remove_at index u i)) t id
            ≡ (not (u == t && i == id) && has (entries index) t id))
remove_at_lem index u i h =
    (remove_at-IsAbove 0 index u i h, λ t id. has-remove_at-above 0 index u i t id h)
