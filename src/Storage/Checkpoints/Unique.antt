-- ===== src/Storage/Checkpoints/Unique.antt =====
-- The primary key of the table `checkpoints` (src/storage/migrations.rs): no two rows have the same, and a row is
-- found by it in any order of the rows.
use layertwine.Prelude.{
  ◌≡◌, refl, ◌∙◌, false, List, [], ◌∷◌, ◌++◌, none, some, ltb, ◌==◌, if◌then◌else◌, arith,
  Bool-cases, inl, inr,
}
use layertwine.Checkpoint.Dag.{CheckpointId}
use layertwine.Checkpoint.Types.{Checkpoint}
use layertwine.Storage.Checkpoints.{find_checkpoint, insert_by_age, by_age}
use layertwine.Storage.Checkpoints.Rows.{find_checkpoint-append}

abbrev pub UniqueIds : List Checkpoint → Type 0
UniqueIds [] = Unit
UniqueIds (cp ∷ cps) = (find_checkpoint cps cp.id ≡ none) × UniqueIds cps

pub UniqueIds-append :
    (cps : List Checkpoint) (cp : Checkpoint)
    → UniqueIds cps
    → find_checkpoint cps cp.id ≡ none
    → UniqueIds (cps ++ (cp ∷ []))
unfolding find_checkpoint
UniqueIds-append [] cp u h = (h, tt)
UniqueIds-append (c ∷ cps) cp (first, u) h = elim (Bool-cases (c.id == cp.id)) [
  | inl same ↦ absurd (let e = rw same at h in cc)
  | inr differ ↦
      let h' : find_checkpoint cps cp.id ≡ none = rw differ at h in
      let o : (cp.id == c.id) ≡ false = ground arith in
      (find_checkpoint-append cps cp c.id h' ∙ rw (o) first, UniqueIds-append cps cp u h')
]

find-insert_by_age :
    (cp : Checkpoint) (cps : List Checkpoint) (id : CheckpointId)
    → find_checkpoint cps cp.id ≡ none
    → find_checkpoint (insert_by_age cp cps) id
      ≡ (if cp.id == id then some cp else find_checkpoint cps id)
unfolding find_checkpoint insert_by_age
find-insert_by_age cp [] id h = refl
find-insert_by_age cp (c ∷ cps) id h = elim (Bool-cases (c.id == cp.id)) [
  | inl same ↦ absurd (let e = rw same at h in cc)
  | inr differ ↦
      let rest = find-insert_by_age cp cps id (rw differ at h) in
      elim (Bool-cases (ltb cp.created_at c.created_at)) [
        | inl older ↦ elim (Bool-cases (c.id == id)) [
          | inl here ↦ let o : (cp.id == id) ≡ false = ground arith in rw (older, here, o) refl
          | inr other ↦ rw (older, other) rest
        ]
        | inr newer ↦ rw newer refl
      ]
]

pub UniqueIds-insert_by_age :
    (cp : Checkpoint) (cps : List Checkpoint)
    → UniqueIds cps
    → find_checkpoint cps cp.id ≡ none
    → UniqueIds (insert_by_age cp cps)
unfolding insert_by_age find_checkpoint
UniqueIds-insert_by_age cp [] u h = (h, tt)
UniqueIds-insert_by_age cp (c ∷ cps) (first, u) h =
    elim (Bool-cases (ltb cp.created_at c.created_at)) [
      | inl older ↦ elim (Bool-cases (c.id == cp.id)) [
        | inl same ↦ absurd (let e = rw same at h in cc)
        | inr differ ↦
            let h' : find_checkpoint cps cp.id ≡ none = rw differ at h in
            let o : (cp.id == c.id) ≡ false = ground arith in
            rw older
              (find-insert_by_age cp cps c.id h' ∙ rw o first, UniqueIds-insert_by_age cp cps u h')
      ]
      | inr newer ↦ rw newer (h, (first, u))
    ]

-- The rows ordered by age are the same rows.
pub by_age_lem :
    (cps : List Checkpoint)
    → UniqueIds cps
    → UniqueIds (by_age cps)
      × ((id : CheckpointId) → find_checkpoint (by_age cps) id ≡ find_checkpoint cps id)
unfolding by_age find_checkpoint
by_age_lem [] u = (tt, λ id. refl)
by_age_lem (cp ∷ cps) (first, u) =
    let (unique, same) = by_age_lem cps u in
    let absent = same cp.id ∙ first in
    (
      UniqueIds-insert_by_age cp (by_age cps) unique absent,
      λ id. rw (find-insert_by_age cp (by_age cps) id absent, same id) refl,
    )
