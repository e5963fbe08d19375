-- ===== src/Layered/Contents/Repeats.antt =====
-- The text of a snapshot whose delta is already in the chain of its parent (src/core/snapshot.rs, src/layered/transition.rs).
use layertwine.Prelude.{ℕ, ◌≡◌, refl, true, Text, contains}
use layertwine.Core.Ids.{Bytes}
use layertwine.Core.Snapshots.{Snapshot, DeltaId, from_parent}
use layertwine.Storage.Checkpoints.{Store}
use layertwine.Storage.Contents.Repeats.{get_deltas-repeated}
use layertwine.Layered.Contents.{reconstruct_text}

-- A snapshot that is made from its parent by a delta whose id is in the parent's chain already has the text of the parent: that
-- delta adds nothing.
pub reconstruct_text-repeated :
    (blake3 : Bytes → ℕ) (from_utf8_lossy : Bytes → Text) (store : Store) (now : ℕ)
    (parent : Snapshot) (id : DeltaId) (partition_type : Text)
    → contains parent.deltas id ≡ true
    → reconstruct_text from_utf8_lossy store (from_parent blake3 now parent id partition_type)
      ≡ reconstruct_text from_utf8_lossy store parent
unfolding reconstruct_text from_parent
reconstruct_text-repeated blake3 from_utf8_lossy store now parent id partition_type h =
    rw (get_deltas-repeated store parent.deltas id h) refl
