-- ===== src/Tests/Engine.antt =====
-- Runs of src/engine/diff.rs and of `apply_deltas` of src/engine/merge.rs.
use layertwine.Prelude.{
  ◌+◌, ◌^◌, ◌<◌, ◌≡◌, ◌≢◌, refl, true, false, List, [], ◌∷◌, ◌++◌, Text, length, arith, ok,
}
use layertwine.Core.LineDiff.{LineDiff}
use layertwine.Engine.Lines.{newline, lines, push_char, ends_with_newline}
use layertwine.Engine.Lines.Join.{HasNoCr}
use layertwine.Engine.Apply.{apply_line_diff, apply_deltas}
use layertwine.Engine.Diff.{
  TextOp, DiffTag, ChangeTag, diff_to_line_diff, change_lines, strip_newline,
}
use layertwine.Engine.Diff.Script.{IsScript, done, group, cons, nil}
use layertwine.Engine.Diff.RoundTrip.{apply-diff}
use layertwine.Engine.Diff.Rebuild.{apply_deltas-diff, apply_deltas-loses_newline}
use layertwine.Tests.Samples.{base_text, our_text, sample_ops, our-IsScript}

small : length (lines base_text) + 1 < 2 ^ 32
unfolding lines push_char
small = omega arith

our_no_cr : HasNoCr our_text
our_no_cr = (omega arith, (omega arith, (omega arith, (omega arith, tt))))

apply-diff_example :
    (diff : LineDiff) × (diff_to_line_diff sample_ops base_text our_text ≡ ok diff)
    × (apply_line_diff (lines base_text) diff ≡ ok (lines our_text))
apply-diff_example = apply-diff sample_ops base_text our_text our-IsScript small

our_not_newline : our_text ≢ newline ∷ []
our_not_newline h = absurd (cc)

both_end : ends_with_newline base_text ≡ ends_with_newline our_text
unfolding ends_with_newline
both_end = refl

apply_deltas-diff_example :
    (diff : LineDiff) × (diff_to_line_diff sample_ops base_text our_text ≡ ok diff)
    × (apply_deltas base_text (diff ∷ []) ≡ ok our_text)
apply_deltas-diff_example =
    apply_deltas-diff sample_ops base_text our_text our-IsScript small our_no_cr our_not_newline
      both_end

-- An empty text becomes the one line "a".
abbrev one_line : Text
one_line = 97 ∷ 10 ∷ []

abbrev insert_line : Text → Text → List (List TextOp)
insert_line old new =
    (record {
      tag = DiffTag.insert;
      old_from = 0;
      old_to = 0;
      new_from = 0;
      new_to = 1;
      changes = (ChangeTag.insert, one_line) ∷ [];
    }
      ∷ [])
    ∷ []

insert-IsScript : IsScript (insert_line [] one_line) 0 0 (lines []) (lines one_line)
unfolding lines push_char change_lines strip_newline
insert-IsScript =
    group []
      (cons {o = []} {n = (97 ∷ []) ∷ []}
        (record {
          old_from = refl;
          old_to = refl;
          new_from = refl;
          new_to = refl;
          body = (refl, refl);
        })
        nil)
      done

empty_small : length (lines []) + 1 < 2 ^ 32
unfolding lines
empty_small = omega arith

one_line_no_cr : HasNoCr one_line
one_line_no_cr = (omega arith, (omega arith, tt))

empty_ends : ends_with_newline [] ≡ false
unfolding ends_with_newline
empty_ends = refl

one_line_ends : ends_with_newline one_line ≡ true
unfolding ends_with_newline
one_line_ends = refl

apply_deltas-loses_newline_example :
    (diff : LineDiff) × (got : Text) × (diff_to_line_diff insert_line [] one_line ≡ ok diff)
    × (apply_deltas [] (diff ∷ []) ≡ ok got)
    × (got ++ newline ∷ [] ≡ one_line)
apply_deltas-loses_newline_example =
    apply_deltas-loses_newline insert_line [] one_line insert-IsScript empty_small one_line_no_cr
      empty_ends one_line_ends
