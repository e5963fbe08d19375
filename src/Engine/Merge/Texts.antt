-- ===== src/Engine/Merge/Texts.antt =====
-- `merge_texts` of src/engine/merge.rs on whole texts.
use layertwine.Prelude.{
  ◌+◌, ◌^◌, ◌<◌, ◌≡◌, ◌≢◌, false, ◌||◌, List, [], Text, length, ok, arith, text_eq, text_eq_iff,
  text_eq_refl,
}
use layertwine.Core.LineDiff.{LineDiff}
use layertwine.Engine.Lines.{lines, join, ends_with_newline}
use layertwine.Engine.Apply.{restore_newline}
use layertwine.Engine.Diff.{TextOp, diff_to_line_diff}
use layertwine.Engine.Diff.Script.{IsScript}
use layertwine.Engine.Diff.RoundTrip.{apply-diff}
use layertwine.Engine.Merge.{extract_changes, with_newline, merge_changes, merge_texts}
use layertwine.Engine.Merge.Replay.{Replays, Apart, weave}
use layertwine.Engine.Merge.Loop.{merge-Apart}
use layertwine.Engine.Merge.Extract.{extract-Replays}

-- Where the crate's operations turn the lines of `base` into those of `ours`, and `base` has fewer than 2^32 - 1 lines,
-- the diff of the two texts is produced, and merging its changes with no change of the other side gives
-- the lines of `ours` and no conflict.
merge_one_side :
    (grouped_ops : Text → Text → List (List TextOp)) (base ours : Text)
    → IsScript (grouped_ops base ours) 0 0 (lines base) (lines ours)
    → length (lines base) + 1 < 2 ^ 32
    → (diff : LineDiff) × (diff_to_line_diff grouped_ops base ours ≡ ok diff)
      × (merge_changes (lines base) [] (extract_changes diff []) ≡ ok (lines ours, []))
merge_one_side grouped_ops base ours script small =
    let (diff, made, applied) = apply-diff grouped_ops base ours script small in
    (
      diff,
      made,
      merge-Apart (lines base) (lines ours) [] (extract_changes diff []) tt
          (unfold weave in extract-Replays grouped_ops base ours diff script small made),
    )

-- Where one side left the base as it is, or both sides are the same text, the merge is the other side
-- with no conflict; a final newline that either text of the two has is put back on it.
merge_texts-unchanged :
    (grouped_ops : Text → Text → List (List TextOp)) (base side : Text)
    → (merge_texts grouped_ops base side base
        ≡ ok (with_newline (ends_with_newline base || ends_with_newline side) side, []))
      × (merge_texts grouped_ops base base side
          ≡ ok (with_newline (ends_with_newline base || ends_with_newline side) side, []))
      × (merge_texts grouped_ops base side side
          ≡ ok (with_newline (ends_with_newline base || ends_with_newline side) side, []))
unfolding merge_texts with_newline
merge_texts-unchanged grouped_ops base side =
    ground
      (arith, text_eq_iff side base, text_eq_iff base side, text_eq_refl base, text_eq_refl side)

-- Where both diffs are produced, neither side is the base and the two sides differ, and the changes of the two diffs
-- begin at different lines and, by their starts, turn the base into `news` one behind the other,
-- the merge is `news` joined, with a final newline if any of the three texts has one and the joined lines are not the empty
-- text, and no conflict.
pub merge_texts-Apart :
    (grouped_ops : Text → Text → List (List TextOp)) (base ours theirs : Text) (news : List Text)
    (diff_ours diff_theirs : LineDiff)
    → ours ≢ theirs
    → base ≢ ours
    → base ≢ theirs
    → diff_to_line_diff grouped_ops base ours ≡ ok diff_ours
    → diff_to_line_diff grouped_ops base theirs ≡ ok diff_theirs
    → Apart (extract_changes diff_ours []) (extract_changes diff_theirs [])
    → Replays 0
        (lines base)
        (weave (extract_changes diff_ours []) (extract_changes diff_theirs []))
        news
    → merge_texts grouped_ops base ours theirs
      ≡ ok (
        restore_newline
            (ends_with_newline base || (ends_with_newline ours || ends_with_newline theirs))
            (join news),
        [],
      )
unfolding merge_texts
merge_texts-Apart grouped_ops base ours theirs news d1 d2 n1 n2 n3 m1 m2 a r =
    let e1 : text_eq ours theirs ≡ false = ground (arith, text_eq_iff ours theirs) in
    let e2 : text_eq base theirs ≡ false = ground (arith, text_eq_iff base theirs) in
    let e3 : text_eq base ours ≡ false = ground (arith, text_eq_iff base ours) in
    rw (e1, e2, e3, m1, m2, merge-Apart (lines base) news _ _ a r)
