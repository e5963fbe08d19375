-- ===== src/Storage/Contents/Repeats.antt =====
-- What `get_deltas` (src/storage/sqlite/delta.rs) gives for a list in which an id comes twice.
use layertwine.Prelude.{
  ◌≡◌, refl, ap, ◌∙◌, true, List, [], ◌∷◌, ◌++◌, none, ◌==◌, if◌then◌else◌, arith, Bool-cases, inl,
  inr, contains,
}
use layertwine.Core.Snapshots.{DeltaId}
use layertwine.Core.Deltas.{Delta}
use layertwine.Storage.Checkpoints.{Store}
use layertwine.Storage.Contents.{find_delta, without_delta, with_found, take_deltas, get_deltas}

without_delta-finds :
    (id x : DeltaId) (ds : List Delta)
    → find_delta (without_delta id ds) x ≡ (if id == x then none else find_delta ds x)
unfolding find_delta without_delta
without_delta-finds id x [] = ground arith
without_delta-finds id x (d ∷ ds) = ground (arith, without_delta-finds id x ds)

-- An id that is not there adds nothing.
take_absent :
    (delta_map : List Delta) (ids : List DeltaId) (id : DeltaId)
    → find_delta delta_map id ≡ none
    → take_deltas delta_map (ids ++ (id ∷ [])) ≡ take_deltas delta_map ids
unfolding take_deltas
take_absent delta_map [] id h = rw h refl
take_absent delta_map (i ∷ ids) id h =
    let still : find_delta (without_delta i delta_map) id ≡ none =
      without_delta-finds i id delta_map ∙ ground arith in
    ap (with_found (find_delta delta_map i)) (take_absent (without_delta i delta_map) ids id still)

take_repeated :
    (delta_map : List Delta) (ids : List DeltaId) (id : DeltaId)
    → contains ids id ≡ true
    → take_deltas delta_map (ids ++ (id ∷ [])) ≡ take_deltas delta_map ids
unfolding take_deltas
take_repeated delta_map [] id h = absurd (cc)
take_repeated delta_map (i ∷ ids) id h = elim (Bool-cases (i == id)) [
  | inl same ↦
      let gone : find_delta (without_delta i delta_map) id ≡ none =
        without_delta-finds i id delta_map ∙ ground arith in
      ap (with_found (find_delta delta_map i)) (take_absent (without_delta i delta_map) ids id gone)
  | inr other ↦
      ap (with_found (find_delta delta_map i))
        (take_repeated (without_delta i delta_map) ids id (ground arith))
]

-- An id that comes again at the end of a list adds nothing to what the list gives.
pub get_deltas-repeated :
    (s : Store) (ids : List DeltaId) (id : DeltaId)
    → contains ids id ≡ true
    → get_deltas s (ids ++ (id ∷ [])) ≡ get_deltas s ids
unfolding get_deltas
get_deltas-repeated s ids id h = take_repeated s.deltas ids id h
