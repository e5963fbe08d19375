-- ===== src/Engine/Diff/Rebuild.antt =====
-- The diff of two texts (src/engine/diff.rs) and `apply_deltas` (src/engine/merge.rs) on whole texts, with the final newline.
use mathlib.Core.List.{append-nil}
use layertwine.Prelude.{
  ◌+◌, ◌^◌, ◌<◌, ◌≡◌, ◌≢◌, ap, sym, ◌∙◌, Bool, true, false, List, [], ◌∷◌, ◌++◌, Text, length, ok,
}
use layertwine.Core.LineDiff.{LineDiff}
use layertwine.Engine.Lines.{newline, lines, join, ends_with_newline}
use layertwine.Engine.Lines.Join.{HasNoCr, newline_if, join-lines}
use layertwine.Engine.Apply.{apply_diffs, apply_deltas, restore_newline}
use layertwine.Engine.Diff.{TextOp, diff_to_line_diff}
use layertwine.Engine.Diff.Script.{IsScript}
use layertwine.Engine.Diff.RoundTrip.{apply-diff}

pub restore_newline_lem :
    (had : Bool) (t s : Text)
    → t ++ newline_if had ≡ s
    → s ≢ newline ∷ []
    → restore_newline had t ≡ s
unfolding restore_newline
restore_newline_lem true [] s e n = absurd (n (sym e))
restore_newline_lem true (c ∷ t) s e n = e
restore_newline_lem false t s e n = sym (append-nil t) ∙ e

module _ (grouped_ops : Text → Text → List (List TextOp)) (old new : Text)
    (script : IsScript (grouped_ops old new) 0 0 (lines old) (lines new))
    (small : length (lines old) + 1 < 2 ^ 32) (no_cr : HasNoCr new) where
  rebuilt :
      (diff : LineDiff) × (diff_to_line_diff grouped_ops old new ≡ ok diff)
      × (apply_deltas old (diff ∷ [])
          ≡ ok (restore_newline (ends_with_newline old) (join (lines new))))
  unfolding apply_deltas apply_diffs
  rebuilt =
      let (diff, made, applied) = apply-diff grouped_ops old new script small in
      (diff, made, rw applied)

  -- Where the crate's operations turn the lines of `old` into those of `new`, `old` has fewer than
  -- 2^32 - 1 lines, `new` has no `\r` and is not the one text "\n", and both or neither of the texts
  -- end with a newline, the diff is produced, and `apply_deltas` on `old` rebuilds `new` exactly.
  pub apply_deltas-diff :
      new ≢ newline ∷ []
      → ends_with_newline old ≡ ends_with_newline new
      → (diff : LineDiff) × (diff_to_line_diff grouped_ops old new ≡ ok diff)
        × (apply_deltas old (diff ∷ []) ≡ ok new)
  apply_deltas-diff n same =
      let (diff, made, applied) = rebuilt in
      let whole =
        restore_newline_lem (ends_with_newline new) (join (lines new)) new (join-lines new no_cr)
          n in
      (diff, made, applied ∙ rw same (ap ok whole))

  -- Under the same conditions on the crate, the size and `\r`: where `new` ends with a newline and `old` does not, `apply_deltas` of the
  -- diff on `old` gives `new` without its final newline.
  pub apply_deltas-loses_newline :
      ends_with_newline old ≡ false
      → ends_with_newline new ≡ true
      → (diff : LineDiff) × (got : Text) × (diff_to_line_diff grouped_ops old new ≡ ok diff)
        × (apply_deltas old (diff ∷ []) ≡ ok got)
        × (got ++ newline ∷ [] ≡ new)
  unfolding restore_newline
  apply_deltas-loses_newline no_newline has_newline =
      let (diff, made, applied) = rebuilt in
      (
        diff,
        join (lines new),
        made,
        rw no_newline at applied,
        rw has_newline at (join-lines new no_cr),
      )
