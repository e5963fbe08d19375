-- ===== src/Checkpoint/Repo/Names.antt =====
-- The primary key of the table `branches` (src/storage/migrations.rs): no two rows have the same name, and a head is found by its name
-- in any order of the rows.
use layertwine.Prelude.{
  ℕ, suc, ◌≡◌, refl, ◌∙◌, false, List, [], ◌∷◌, ◌++◌, none, some, Text, text_eq, text_eq_iff,
  get_elem?, if◌then◌else◌, Bool-cases, inl, inr, some_inj,
}
use layertwine.Checkpoint.Dag.{CheckpointId}
use layertwine.Checkpoint.Types.{Branch}
use layertwine.Storage.Partitions.{text_le}
use layertwine.Storage.Checkpoints.{headed, insert_by_name, by_name}
use layertwine.Checkpoint.Repo.{branch_position}
use layertwine.Checkpoint.Repo.Branches.{branch_head, text_eq_sym}

abbrev pub UniqueNames : List Branch → Type 0
UniqueNames [] = Unit
UniqueNames (b ∷ bs) = (branch_head bs b.name ≡ none) × UniqueNames bs

pub UniqueNames-append :
    (bs : List Branch) (b : Branch)
    → UniqueNames bs
    → branch_head bs b.name ≡ none
    → UniqueNames (bs ++ (b ∷ []))
unfolding branch_head
UniqueNames-append [] b u h = (refl, tt)
UniqueNames-append (c ∷ bs) b (first, u) h = elim (Bool-cases (text_eq c.name b.name)) [
  | inl same ↦ absurd (let e = rw same at h in cc)
  | inr differ ↦
      let h' : branch_head bs b.name ≡ none = rw differ at h in
      (
        append_other bs b c.name (text_eq_sym b.name c.name ∙ differ) ∙ first,
        UniqueNames-append bs b u h',
      )
]
  where
    append_other :
        (bs : List Branch) (b : Branch) (name : Text)
        → text_eq b.name name ≡ false
        → branch_head (bs ++ (b ∷ [])) name ≡ branch_head bs name
    append_other [] b name o = rw o refl
    append_other (d ∷ bs) b name o = rw (append_other bs b name o) refl

head_none :
    (now id : ℕ) (changed name : Text) (bs : List Branch)
    → branch_head bs name ≡ none
    → branch_head (headed now changed id bs) name ≡ none
unfolding branch_head headed
head_none now id changed name [] h = refl
head_none now id changed name (c ∷ bs) h = elim (Bool-cases (text_eq c.name name)) [
  | inl same ↦ absurd (let e = rw same at h in cc)
  | inr differ ↦ elim (Bool-cases (text_eq c.name changed)) [
    | inl hit ↦ rw (hit, differ) (head_none now id changed name bs (rw differ at h))
    | inr miss ↦ rw (miss, differ) (head_none now id changed name bs (rw differ at h))
  ]
]

pub UniqueNames-headed :
    (now id : ℕ) (changed : Text) (bs : List Branch)
    → UniqueNames bs
    → UniqueNames (headed now changed id bs)
unfolding headed
UniqueNames-headed now id changed [] u = tt
UniqueNames-headed now id changed (c ∷ bs) (first, u) =
    let rest = UniqueNames-headed now id changed bs u in
    elim (Bool-cases (text_eq c.name changed)) [
      | inl hit ↦ rw hit (head_none now id changed c.name bs first, rest)
      | inr miss ↦ rw miss (head_none now id changed c.name bs first, rest)
    ]

head-insert_by_name :
    (b : Branch) (bs : List Branch) (name : Text)
    → branch_head bs b.name ≡ none
    → branch_head (insert_by_name b bs) name
      ≡ (if text_eq b.name name then some b.head else branch_head bs name)
unfolding branch_head insert_by_name
head-insert_by_name b [] name h = refl
head-insert_by_name b (c ∷ bs) name h = elim (Bool-cases (text_eq c.name b.name)) [
  | inl same ↦ absurd (let e = rw same at h in cc)
  | inr differ ↦
      let rest = head-insert_by_name b bs name (rw differ at h) in
      elim (Bool-cases (text_le b.name c.name)) [
        | inl before ↦ rw before refl
        | inr after ↦ elim (Bool-cases (text_eq c.name name)) [
          | inl here ↦
              let e = (text_eq_iff c.name name).0 here in
              let o : text_eq b.name name ≡ false = text_eq_sym b.name name ∙ (rw (← e) differ) in
              rw (after, here, o) refl
          | inr other ↦ rw (after, other) rest
        ]
      ]
]

-- The rows ordered by name are the same rows.
pub by_name_lem :
    (bs : List Branch)
    → UniqueNames bs
    → (name : Text) → branch_head (by_name bs) name ≡ branch_head bs name
unfolding by_name branch_head
by_name_lem [] u name = refl
by_name_lem (b ∷ bs) (first, u) name =
    let absent = by_name_lem bs u b.name ∙ first in
    rw (head-insert_by_name b (by_name bs) name absent, by_name_lem bs u name) refl

-- A head that is found by a name stands at that name's position.
pub head_position :
    (bs : List Branch) (name : Text) (id : CheckpointId)
    → branch_head bs name ≡ some id
    → (i : ℕ) × (b : Branch) × (branch_position bs name ≡ some i)
      × (get_elem? bs i ≡ some b)
      × (b.name ≡ name)
      × (b.head ≡ id)
unfolding branch_head branch_position
head_position [] name id h = absurd (cc)
head_position (c ∷ bs) name id h = elim (Bool-cases (text_eq c.name name)) [
  | inl same ↦ (0, c, rw same refl, refl, (text_eq_iff c.name name).0 same, some_inj (rw same at h))
  | inr differ ↦
      let (i, b, position, here, named, head) = head_position bs name id (rw differ at h) in
      (suc i, b, rw (differ, position) refl, here, named, head)
]
