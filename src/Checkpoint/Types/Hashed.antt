-- ===== src/Checkpoint/Types/Hashed.antt =====
-- What the id of a checkpoint tells apart (src/checkpoint/types.rs).
use mathlib.Core.List.{append_assoc}
use layertwine.Prelude.{ℕ, ◌≡◌, refl, ap, sym, ◌∙◌, List, [], ◌∷◌, ◌++◌, Text}
use layertwine.Core.Ids.{Bytes, id_bytes, as_bytes, utf8_char}
use layertwine.Core.Partition.{SnapshotId}
use layertwine.Core.Snapshots.{flat_ids}
use layertwine.Checkpoint.Dag.{CheckpointId}
use layertwine.Checkpoint.Types.{
  metadata_of, hashed, compute_id, checkpoint, sort_sources, source_bytes,
}

flat_ids-append : (xs ys : List ℕ) → flat_ids (xs ++ ys) ≡ flat_ids xs ++ flat_ids ys
unfolding flat_ids
flat_ids-append [] ys = refl
flat_ids-append (x ∷ xs) ys =
    rw (flat_ids-append xs ys) (sym (append_assoc (id_bytes x) (flat_ids xs) (flat_ids ys)))

as_bytes-append : (xs ys : Text) → as_bytes (xs ++ ys) ≡ as_bytes xs ++ as_bytes ys
unfolding as_bytes
as_bytes-append [] ys = refl
as_bytes-append (x ∷ xs) ys =
    rw (as_bytes-append xs ys) (sym (append_assoc (utf8_char x) (as_bytes xs) (as_bytes ys)))

-- The hash of a checkpoint has no lengths in it: ids that move from the end of the parents to the start of the
-- baseline snapshots, and characters that move from the end of the author to the start of the message, leave the
-- id of the checkpoint as it is; so does the time.
pub compute_id_cuts :
    (blake3 : Bytes → ℕ) (now later : ℕ) (parents moved : List CheckpointId)
    (snapshots : List SnapshotId) (author cut message : Text)
    → (checkpoint blake3 now snapshots (parents ++ moved) (metadata_of (author ++ cut) message)).id
      ≡ (checkpoint blake3 later
          (moved ++ snapshots)
          parents
          (metadata_of author (cut ++ message))).id
unfolding checkpoint compute_id hashed metadata_of sort_sources source_bytes
compute_id_cuts blake3 now later parents moved snapshots author cut message = ap blake3 (
    rw
      (
        flat_ids-append parents moved,
        flat_ids-append moved snapshots,
        as_bytes-append author cut,
        as_bytes-append cut message,
      )
      (append_assoc (flat_ids parents) (flat_ids moved) _
        ∙ ap (λ l. flat_ids parents ++ l)
            (ap (λ l. flat_ids moved ++ (flat_ids snapshots ++ l))
                (texts (as_bytes author) (as_bytes cut) (as_bytes message))
              ∙ sym (append_assoc (flat_ids moved) (flat_ids snapshots) _))))
  where
    texts : (a c m : Bytes) → (a ++ c) ++ (m ++ []) ≡ a ++ ((c ++ m) ++ [])
    texts a c m = append_assoc a c (m ++ []) ∙ ap (λ l. a ++ l) (sym (append_assoc c m []))
