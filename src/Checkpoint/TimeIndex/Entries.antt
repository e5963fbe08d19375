-- ===== src/Checkpoint/TimeIndex/Entries.antt =====
-- The entries of the time index after each operation of src/checkpoint/time_index.rs, and what its queries give.
use mathlib.Core.List.{append_assoc}
use layertwine.Prelude.{
  ℕ, suc, ◌+◌, ◌≤◌, ◌≡◌, refl, ap, ◌∙◌, Bool, true, false, ◌&&◌, ◌||◌, List, [], ◌∷◌, ◌++◌, length,
  length-append, ltb, leb, ◌==◌, if◌then◌else◌, arith, Bool-cases, ==_iff, inl, inr, ok, err, Error,
}
use layertwine.Checkpoint.TimeIndex.{
  TimeIndex, Entry, insert_at, stamped, entries, range, query_range, before, after, len, insert_all,
  from_checkpoints,
}

-- The keys ascend from a bound.
abbrev pub IsAbove : ℕ → TimeIndex → Type 0
IsAbove low [] = Unit
IsAbove low ((k, ids) ∷ index) = (low ≤ k) × IsAbove (suc k) index

abbrev pub IsIndex : TimeIndex → Type 0
IsIndex index = IsAbove 0 index

-- Whether an entry is in a list.
abbrev pub has : List Entry → ℕ → ℕ → Bool
has [] t id = false
has ((u, i) ∷ es) t id = (u == t && i == id) || has es t id

pub has-append :
    (xs ys : List Entry) (t id : ℕ) → has (xs ++ ys) t id ≡ (has xs t id || has ys t id)
has-append [] ys t id = refl
has-append ((u, i) ∷ xs) ys t id = ground (arith, has-append xs ys t id)

pub insert_at-IsAbove :
    (low : ℕ) (index : TimeIndex) (t id : ℕ)
    → IsAbove low index
    → low ≤ t
    → IsAbove low (insert_at index t id)
unfolding insert_at
insert_at-IsAbove low [] t id h l = (l, tt)
insert_at-IsAbove low ((k, ids) ∷ index) t id (l, h) m = elim (Bool-cases (k == t)) [
  | inl same ↦ rw same (l, h)
  | inr other ↦ elim (Bool-cases (ltb t k)) [
    | inl less ↦ rw (other, less) (m, (ground arith, h))
    | inr more ↦ rw (other, more) (l, insert_at-IsAbove (suc k) index t id h (ground arith))
  ]
]

len-insert_at : (index : TimeIndex) (t id : ℕ) → len (insert_at index t id) ≡ suc (len index)
unfolding insert_at len
len-insert_at [] t id = refl
len-insert_at ((k, ids) ∷ index) t id = elim (Bool-cases (k == t)) [
  | inl same ↦ rw same (omega (arith, length-append ids (id ∷ [])))
  | inr other ↦ elim (Bool-cases (ltb t k)) [
    | inl less ↦ rw (other, less) (omega arith)
    | inr more ↦ rw (other, more) (omega (arith, len-insert_at index t id))
  ]
]

has-stamped :
    (k : ℕ) (ids : List ℕ) (i t id : ℕ)
    → has (stamped k (ids ++ (i ∷ []))) t id ≡ ((k == t && i == id) || has (stamped k ids) t id)
unfolding stamped
has-stamped k [] i t id = refl
has-stamped k (j ∷ ids) i t id = ground (arith, has-stamped k ids i t id)

pub has-insert_at :
    (index : TimeIndex) (u i t id : ℕ)
    → has (entries (insert_at index u i)) t id ≡ ((u == t && i == id) || has (entries index) t id)
unfolding insert_at entries stamped
has-insert_at [] u i t id = refl
has-insert_at ((k, ids) ∷ index) u i t id = elim (Bool-cases (k == u)) [
  | inl same ↦
      rw
        (
          same,
          has-append (stamped k (ids ++ (i ∷ []))) (entries index) t id,
          has-append (stamped k ids) (entries index) t id,
          has-stamped k ids i t id,
        )
        (ground arith)
  | inr other ↦ elim (Bool-cases (ltb u k)) [
    | inl less ↦ rw (other, less) refl
    | inr more ↦
        rw
          (
            other,
            more,
            has-append (stamped k ids) (entries (insert_at index u i)) t id,
            has-append (stamped k ids) (entries index) t id,
            has-insert_at index u i t id,
          )
          (ground arith)
  ]
]

pub has-stamped-key :
    (k : ℕ) (ids : List ℕ) (t id : ℕ) → (k == t) ≡ false → has (stamped k ids) t id ≡ false
unfolding stamped
has-stamped-key k [] t id h = refl
has-stamped-key k (i ∷ ids) t id h = ground (arith, has-stamped-key k ids t id h)

pub has-range :
    (inside : ℕ → Bool) (index : TimeIndex) (t id : ℕ)
    → has (entries (range inside index)) t id ≡ (inside t && has (entries index) t id)
unfolding range entries
has-range inside [] t id = ground arith
has-range inside ((k, ids) ∷ index) t id =
    let ih = has-range inside index t id in
    let here : (k == t) ≡ true → inside k ≡ inside t = λ e. ap inside ((==_iff k t).0 e) in
    let away = has-stamped-key k ids t id in
    elim (Bool-cases (inside k)) [
      | inl kept ↦
          rw
            (
              kept,
              has-append (stamped k ids) (entries (range inside index)) t id,
              has-append (stamped k ids) (entries index) t id,
              ih,
            )
            (ground arith)
      | inr dropped ↦
          rw (dropped, has-append (stamped k ids) (entries index) t id, ih) (ground arith)
    ]

range-late :
    (low t : ℕ) (index : TimeIndex)
    → IsAbove low index
    → t ≤ low
    → (entries (range (λ u. ltb u t) index) ≡ [])
      × (entries (range (λ u. leb t u) index) ≡ entries index)
unfolding range entries
range-late low t [] h l = (refl, refl)
range-late low t ((k, ids) ∷ index) (m, h) l =
    let no : ltb k t ≡ false = ground arith in
    let yes' : leb t k ≡ true = ground arith in
    let (none', all) = range-late (suc k) t index h (omega arith) in
    (rw (no, none') refl, rw (yes', all) refl)

before-after-above :
    (low t : ℕ) (index : TimeIndex)
    → IsAbove low index
    → entries (range (λ u. ltb u t) index) ++ entries (range (λ u. leb t u) index) ≡ entries index
unfolding range entries
before-after-above low t [] h = refl
before-after-above low t ((k, ids) ∷ index) (m, h) = elim (Bool-cases (ltb k t)) [
  | inl less ↦
      let no : leb t k ≡ false = ground arith in
      rw (less, no)
        (append_assoc (stamped k ids) (entries (range (λ u. ltb u t) index))
            (entries (range (λ u. leb t u) index))
          ∙ ap (λ es. stamped k ids ++ es) (before-after-above (suc k) t index h))
  | inr more ↦
      let at_least : leb t k ≡ true = ground arith in
      let (none', all) = range-late (suc k) t index h (ground arith) in
      rw (more, at_least, none', all) refl
]

-- The entries before a time and those from it on are, in this order, all the entries of an index whose keys ascend.
before-after :
    (index : TimeIndex) (t : ℕ) → IsIndex index → before index t ++ after index t ≡ entries index
unfolding before after
before-after index t h = before-after-above 0 t index h

insert_all-IsIndex :
    (index : TimeIndex) (es : List Entry) → IsIndex index → IsIndex (insert_all index es)
unfolding insert_all
insert_all-IsIndex index [] h = h
insert_all-IsIndex index ((t, id) ∷ es) h =
    insert_all-IsIndex (insert_at index t id) es (insert_at-IsAbove 0 index t id h (omega arith))

len-insert_all :
    (index : TimeIndex) (es : List Entry) → len (insert_all index es) ≡ len index + length es
unfolding insert_all
len-insert_all index [] = omega arith
len-insert_all index ((t, id) ∷ es) =
    omega (arith, len-insert_all (insert_at index t id) es, len-insert_at index t id)

has-insert_all :
    (index : TimeIndex) (es : List Entry) (t id : ℕ)
    → has (entries (insert_all index es)) t id ≡ (has es t id || has (entries index) t id)
unfolding insert_all
has-insert_all index [] t id = refl
has-insert_all index ((u, i) ∷ es) t id =
    has-insert_all (insert_at index u i) es t id ∙ rw (has-insert_at index u i t id) (ground arith)

-- The index built from checkpoints, in any order, has ascending keys, as many entries as there are checkpoints, and holds
-- exactly their entries.
pub from_checkpoints_lem :
    (es : List Entry)
    → IsIndex (from_checkpoints es)
      × (len (from_checkpoints es) ≡ length es)
      × ((t id : ℕ) → has (entries (from_checkpoints es)) t id ≡ has es t id)
unfolding from_checkpoints entries
from_checkpoints_lem es =
    let none' : len [] ≡ 0 = unfold len in refl in
    let size : len (insert_all [] es) ≡ length es = omega (arith, len-insert_all [] es) in
    (insert_all-IsIndex [] es tt, size, λ t id. has-insert_all [] es t id ∙ ground arith)

-- A query whose range does not start after its end succeeds, and gives exactly the entries of the index whose time is in the range,
-- both ends included; a range that starts after its end panics.
pub query_range_lem :
    (index : TimeIndex) (from to : ℕ)
    → if ltb to from
      then (query_range index from to ≡ err Error.panic)
      else ((found : List Entry) × (query_range index from to ≡ ok found)
          × ((t id : ℕ) → has found t id ≡ ((leb from t && leb t to) && has (entries index) t id)))
unfolding query_range
query_range_lem index from to = go (ltb to from) refl
  where
    go :
        (b : Bool)
        → ltb to from ≡ b
        → if b
          then (query_range index from to ≡ err Error.panic)
          else ((found : List Entry) × (query_range index from to ≡ ok found)
              × ((t id : ℕ)
                  → has found t id ≡ ((leb from t && leb t to) && has (entries index) t id)))
    go true e = rw e refl
    go false e = (
      entries (range (λ t. leb from t && leb t to) index),
      rw e refl,
      λ t id. has-range (λ t. leb from t && leb t to) index t id,
    )
