-- ===== src/Checkpoint/TimeIndex.antt =====
-- `TimeIndex` of src/checkpoint/time_index.rs: the `BTreeMap` as an association list by ascending key, with the ids of a
-- key in the order they came. A time is the number of milliseconds from the least `i64`, so that order and
-- differences are those of the `i64`. Of a checkpoint, its `created_at` and its id are kept.
pub mod Entries
pub mod Removal
pub mod Nearest
use layertwine.Prelude.{
  ℕ, ◌+◌, ◌-◌, ◌^◌, ◌≡◌, Bool, true, false, not, ◌&&◌, List, [], ◌∷◌, ◌++◌, Option, none, some,
  length, head?, get_last?, ltb, leb, ◌==◌, if◌then◌else◌, Result, ok, err, Error,
}

abbrev pub Bucket : Type 0
Bucket = ℕ × List ℕ

abbrev pub TimeIndex : Type 0
TimeIndex = List Bucket

-- A time and the id of a checkpoint.
abbrev pub Entry : Type 0
Entry = ℕ × ℕ

abbrev pub empty : TimeIndex
empty = []

-- `entry(t).or_default().push(id)`.
unfoldable pub insert_at : TimeIndex → ℕ → ℕ → TimeIndex
insert_at [] t id = (t, id ∷ []) ∷ []
insert_at ((k, ids) ∷ index) t id =
    let rest = insert_at index t id in
    if k == t
    then (k, ids ++ (id ∷ [])) ∷ index
    else if ltb t k
    then (t, id ∷ []) ∷ (k, ids) ∷ index
    else (k, ids) ∷ rest

-- `retain(|i| i != id)`.
unfoldable pub retain : List ℕ → ℕ → List ℕ
retain [] id = []
retain (i ∷ ids) id = let rest = retain ids id in if i == id then rest else i ∷ rest

-- The bucket, unless nothing is left of it.
abbrev pub keep : ℕ → List ℕ → TimeIndex → TimeIndex
keep k [] index = index
keep k (i ∷ ids) index = (k, i ∷ ids) ∷ index

unfoldable pub remove_at : TimeIndex → ℕ → ℕ → TimeIndex
remove_at [] t id = []
remove_at ((k, ids) ∷ index) t id =
    let rest = remove_at index t id in
    if k == t then keep k (retain ids id) index else (k, ids) ∷ rest

-- `ids.iter().map(|id| (time, id))`.
unfoldable pub stamped : ℕ → List ℕ → List Entry
stamped t [] = []
stamped t (id ∷ ids) = (t, id) ∷ stamped t ids

unfoldable pub entries : TimeIndex → List Entry
entries [] = []
entries ((k, ids) ∷ index) = stamped k ids ++ entries index

-- `entries.range(…)`: the buckets whose key passes the test.
unfoldable pub range : (ℕ → Bool) → TimeIndex → TimeIndex
range inside [] = []
range inside ((k, ids) ∷ index) =
    let rest = range inside index in if inside k then (k, ids) ∷ rest else rest

-- `BTreeMap::range` panics on a range that starts after its end.
unfoldable pub query_range : TimeIndex → (from to : ℕ) → Result (List Entry)
query_range index from to =
    if ltb to from
    then err Error.panic
    else ok (entries (range (λ t. leb from t && leb t to) index))

unfoldable pub before : TimeIndex → ℕ → List Entry
before index timestamp = entries (range (λ t. ltb t timestamp) index)

unfoldable pub after : TimeIndex → ℕ → List Entry
after index timestamp = entries (range (λ t. leb timestamp t) index)

-- `(late - early).unsigned_abs()` on `i64`, which wraps where the difference does not fit.
unfoldable pub distance : (late early : ℕ) → ℕ
distance late early = let d = late - early in if ltb d (2 ^ 63) then d else 2 ^ 64 - d

abbrev pub first_entry : ℕ → Option ℕ → Option Entry
first_entry t none = none
first_entry t (some id) = some (t, id)

abbrev pub nearer : ℕ → Option Bucket → Option Bucket → Option Entry
nearer target (some (t1, ids1)) (some (t2, ids2)) =
    if leb (distance target t1) (distance t2 target)
    then first_entry t1 (head? ids1)
    else first_entry t2 (head? ids2)
nearer target (some (t, ids)) none = first_entry t (head? ids)
nearer target none (some (t, ids)) = first_entry t (head? ids)
nearer target none none = none

unfoldable pub find_nearest : TimeIndex → ℕ → Option Entry
find_nearest index target =
    nearer target (get_last? (range (λ t. ltb t target) index))
      (head? (range (λ t. leb target t) index))

unfoldable pub len : TimeIndex → ℕ
len [] = 0
len ((k, ids) ∷ index) = length ids + len index

abbrev pub is_empty_index : TimeIndex → Bool
is_empty_index [] = true
is_empty_index (b ∷ index) = false

unfoldable pub insert_all : TimeIndex → List Entry → TimeIndex
insert_all index [] = index
insert_all index ((t, id) ∷ checkpoints) = insert_all (insert_at index t id) checkpoints

unfoldable pub from_checkpoints : List Entry → TimeIndex
from_checkpoints checkpoints = insert_all empty checkpoints

abbrev pub key_of : Option Bucket → Option ℕ
key_of none = none
key_of (some (k, ids)) = some k

unfoldable pub earliest : TimeIndex → Option ℕ
earliest index = key_of (head? index)

unfoldable pub latest : TimeIndex → Option ℕ
latest index = key_of (get_last? index)
