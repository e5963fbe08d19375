-- ===== src/Checkpoint/TimeIndex/Nearest.antt =====
-- `find_nearest` of src/checkpoint/time_index.rs against the entries of the index.
use layertwine.Prelude.{
  ℕ, suc, ◌+◌, ◌-◌, ◌^◌, ◌<◌, ◌≤◌, ◌≡◌, refl, sym, ap, ◌∙◌, Bool, true, false, List, [], ◌∷◌,
  Option, none, some, ◌⊎◌, inl, inr, head?, get_last?, ltb, leb, ◌==◌, ==_iff, ==_refl,
  if◌then◌else◌, arith, Bool-cases,
}
use layertwine.Checkpoint.TimeIndex.{
  Bucket, Entry, TimeIndex, stamped, entries, range, distance, nearer, find_nearest,
}
use layertwine.Checkpoint.TimeIndex.Entries.{IsAbove, IsIndex, has, has-append, has-stamped-key}
use layertwine.Checkpoint.TimeIndex.Removal.{has-above}

-- Every key has an id.
abbrev pub IsFull : TimeIndex → Type 0
IsFull [] = Unit
IsFull ((k, ids) ∷ index) = ((i : ℕ) × (head? ids ≡ some i)) × IsFull index

abbrev pub gap : ℕ → ℕ → ℕ
gap a b = (a - b) + (b - a)

-- An entry is there, under its key.
abbrev IsIn : TimeIndex → ℕ → ℕ → Type 0
IsIn index t id = has (entries index) t id ≡ true

has-cons :
    (k : ℕ) (ids : List ℕ) (index : TimeIndex) (t id : ℕ)
    → IsIn ((k, ids) ∷ index) t id
    → (k ≡ t) ⊎ IsIn index t id
unfolding entries
has-cons k ids index t id h =
    let whole = has-append (stamped k ids) (entries index) t id in
    elim (Bool-cases (k == t)) [
      | inl same ↦ inl ((==_iff k t).0 same)
      | inr other ↦ inr (ground (arith, whole, has-stamped-key k ids t id other))
    ]

has-tail :
    (k : ℕ) (ids : List ℕ) (index : TimeIndex) (t id : ℕ)
    → IsIn index t id
    → IsIn ((k, ids) ∷ index) t id
unfolding entries
has-tail k ids index t id h = ground (arith, has-append (stamped k ids) (entries index) t id)

has-first :
    (k : ℕ) (ids : List ℕ) (index : TimeIndex) (i : ℕ)
    → head? ids ≡ some i
    → IsIn ((k, ids) ∷ index) k i
unfolding entries stamped
has-first k [] index i h = absurd (cc)
has-first k (j ∷ ids) index i h = let e : j ≡ i = cc in rw (e, ==_refl k, ==_refl i) refl

-- The last bucket before a time, or none where nothing is before it.
abbrev IsBefore : TimeIndex → ℕ → Option Bucket → Type 0
IsBefore index T none = (t id : ℕ) → IsIn index t id → T ≤ t
IsBefore index T (some (k, ids)) =
    (k < T)
    × ((i : ℕ) × (head? ids ≡ some i) × IsIn index k i)
    × ((t id : ℕ) → IsIn index t id → (T ≤ t) ⊎ (t ≤ k))

-- The first bucket from a time on, or none where everything is before it.
abbrev IsAfter : TimeIndex → ℕ → Option Bucket → Type 0
IsAfter index T none = (t id : ℕ) → IsIn index t id → t < T
IsAfter index T (some (k, ids)) =
    (T ≤ k)
    × ((i : ℕ) × (head? ids ≡ some i) × IsIn index k i)
    × ((t id : ℕ) → IsIn index t id → (t < T) ⊎ (k ≤ t))

range-IsAfter :
    (low : ℕ) (index : TimeIndex) (T : ℕ)
    → IsAbove low index
    → IsFull index
    → IsAfter index T (head? (range (λ t. leb T t) index))
unfolding range
range-IsAfter low [] T h f = λ t id x. absurd (unfold entries in cc)
range-IsAfter low ((k, ids) ∷ index) T (m, h) ((i, e), f) = elim (Bool-cases (leb T k)) [
  | inl reached ↦ rw reached (
    ground arith,
    (i, e, has-first k ids index i e),
    λ t id x. inr (least t id (has-cons k ids index t id x)),
  )
  | inr early ↦
      rw early (
        lift (head? (range (λ t. leb T t) index)) (range-IsAfter (suc k) index T h f)
          (ground arith))
]
  where
    least : (t id : ℕ) → (k ≡ t) ⊎ IsIn index t id → k ≤ t
    least t id (inl same) = omega arith
    least t id (inr there) = elim (Bool-cases (ltb t (suc k))) [
      | inl less ↦ let outside = has-above (suc k) index t id h (ground arith) in absurd (cc)
      | inr more ↦ ground arith
    ]

    lift : (o : Option Bucket) → IsAfter index T o → k < T → IsAfter ((k, ids) ∷ index) T o
    lift none a l = λ t id x. elim (has-cons k ids index t id x) [
      | inl same ↦ omega arith
      | inr there ↦ a t id there
    ]
    lift (some (k', ids')) (b, (i', e', c), a) l = (
      b,
      (i', e', has-tail k ids index k' i' c),
      λ t id x. elim (has-cons k ids index t id x) [
        | inl same ↦ inl (omega arith)
        | inr there ↦ a t id there
      ],
    )

or_first : Bucket → Option Bucket → Option Bucket
or_first b none = some b
or_first b (some last) = some last

get_last?-cons : (b : Bucket) (bs : TimeIndex) → get_last? (b ∷ bs) ≡ or_first b (get_last? bs)
unfolding or_first
get_last?-cons b [] = refl
get_last?-cons b (c ∷ []) = refl
get_last?-cons b (c ∷ d ∷ bs) = let (l, e) = nonempty d bs in e ∙ sym (ap (or_first b) e)
  where
    nonempty : (d : Bucket) (bs : TimeIndex) → (l : Bucket) × (get_last? (d ∷ bs) ≡ some l)
    nonempty d [] = (d, refl)
    nonempty d (e ∷ bs) = nonempty e bs

range-IsBefore :
    (low : ℕ) (index : TimeIndex) (T : ℕ)
    → IsAbove low index
    → IsFull index
    → IsBefore index T (get_last? (range (λ t. ltb t T) index))
unfolding range
range-IsBefore low [] T h f = λ t id x. absurd (unfold entries in cc)
range-IsBefore low ((k, ids) ∷ index) T (m, h) ((i, e), f) = elim (Bool-cases (ltb k T)) [
  | inl early ↦
      rw (early, get_last?-cons (k, ids) (range (λ t. ltb t T) index))
        (with_first (get_last? (range (λ t. ltb t T) index)) (range-IsBefore (suc k) index T h f)
          (ground arith))
  | inr reached ↦ rw reached (
      lift (get_last? (range (λ t. ltb t T) index)) (range-IsBefore (suc k) index T h f)
        (ground arith))
]
  where
    lift : (o : Option Bucket) → IsBefore index T o → T ≤ k → IsBefore ((k, ids) ∷ index) T o
    lift none a l = λ t id x. elim (has-cons k ids index t id x) [
      | inl same ↦ omega arith
      | inr there ↦ a t id there
    ]
    lift (some (k', ids')) (b, (i', e', c), a) l = (
      b,
      (i', e', has-tail k ids index k' i' c),
      λ t id x. elim (has-cons k ids index t id x) [
        | inl same ↦ inl (omega arith)
        | inr there ↦ a t id there
      ],
    )

    above : (k' i' : ℕ) → IsIn index k' i' → k < k'
    above k' i' x = elim (Bool-cases (ltb k' (suc k))) [
      | inl less ↦ let outside = has-above (suc k) index k' i' h (ground arith) in absurd (cc)
      | inr more ↦ ground arith
    ]

    with_first :
        (o : Option Bucket)
        → IsBefore index T o
        → k < T
        → IsBefore ((k, ids) ∷ index) T (or_first (k, ids) o)
    with_first none a l =
        unfold or_first in
        (
          l,
          (i, e, has-first k ids index i e),
          λ t id x. elim (has-cons k ids index t id x) [
            | inl same ↦ inr (omega arith)
            | inr there ↦ inl (a t id there)
          ],
        )
    with_first (some (k', ids')) (b, (i', e', c), a) l =
        unfold or_first in
        (
          b,
          (i', e', has-tail k ids index k' i' c),
          λ t id x. elim (has-cons k ids index t id x) [
            | inl same ↦ let less = above k' i' c in inr (omega arith)
            | inr there ↦ a t id there
          ],
        )

-- What a search for the nearest entry should give: an entry of the index, none of which is nearer; nothing, where
-- there is none.
abbrev pub IsNearest : TimeIndex → ℕ → Option Entry → Type 0
IsNearest index target none = (t id : ℕ) → has (entries index) t id ≡ false
IsNearest index target (some (n, i)) =
    (has (entries index) n i ≡ true)
    × ((t id : ℕ) → has (entries index) t id ≡ true → gap target n ≤ gap target t)

-- No time of the index is 2^63 milliseconds or more from the target.
abbrev pub IsClose : TimeIndex → ℕ → Type 0
IsClose index target = (t id : ℕ) → has (entries index) t id ≡ true → gap target t < 2 ^ 63

nearer-IsNearest :
    (index : TimeIndex) (target : ℕ) (early late : Option Bucket)
    → IsClose index target
    → IsBefore index target early
    → IsAfter index target late
    → IsNearest index target (nearer target early late)
nearer-IsNearest index target none none close b a = λ t id.
    elim (Bool-cases (has (entries index) t id)) [
      | inl there ↦ let l = a t id there in let m = b t id there in absurd (omega arith)
      | inr absent ↦ absent
    ]
nearer-IsNearest index target (some (k, ids)) none close (l, (i, e, c), b) a = rw e (
  c,
  λ t id x.
      let less = a t id x in
      elim (b t id x) [ inl far ↦ absurd (omega arith) | inr near ↦ omega arith ],
)
nearer-IsNearest index target none (some (k, ids)) close b (l, (i, e, c), a) = rw e (
  c,
  λ t id x.
      let more = b t id x in
      elim (a t id x) [ inl far ↦ absurd (omega arith) | inr near ↦ omega arith ],
)
nearer-IsNearest index target (some (k, ids)) (some (k', ids')) close (l, (i, e, c), b)
      (l', (i', e', c'), a) =
    let small = close k i c in
    let small' = close k' i' c' in
    let d : distance target k ≡ gap target k = unfold distance in ground arith in
    let d' : distance k' target ≡ gap target k' = unfold distance in ground arith in
    rw (d, d', e, e') (choose (leb (gap target k) (gap target k')) refl)
  where
    choose :
        (x : Bool)
        → leb (gap target k) (gap target k') ≡ x
        → IsNearest index target (if x then some (k, i) else some (k', i'))
    choose true q = (
      c,
      λ t id x. elim (b t id x) [
        | inl at_least ↦ elim (a t id x) [
          | inl less ↦ absurd (omega arith)
          | inr far ↦ ground arith
        ]
        | inr near ↦ omega arith
      ],
    )
    choose false q = (
      c',
      λ t id x. elim (a t id x) [
        | inl less ↦ elim (b t id x) [
          | inl at_least ↦ absurd (omega arith)
          | inr far ↦ ground arith
        ]
        | inr near ↦ omega arith
      ],
    )

-- In an index whose keys ascend, where every key has an id and no time is 2^63 milliseconds or more from the target, the
-- search gives an entry of the index such that none is nearer to the target, and nothing only if there is no entry.
pub find_nearest-IsNearest :
    (index : TimeIndex) (target : ℕ)
    → IsIndex index
    → IsFull index
    → IsClose index target
    → IsNearest index target (find_nearest index target)
unfolding find_nearest
find_nearest-IsNearest index target h f close =
    nearer-IsNearest index target (get_last? (range (λ t. ltb t target) index))
      (head? (range (λ t. leb target t) index)) close (range-IsBefore 0 index target h f)
      (range-IsAfter 0 index target h f)
