-- ===== src/Tests/Merging.antt =====
-- Runs of the three-way merge of src/engine/merge.rs.
use layertwine.Prelude.{
  ℕ, ◌+◌, ◌^◌, ◌<◌, ◌≡◌, ◌≢◌, refl, true, ◌||◌, List, [], ◌∷◌, ◌++◌, Text, text_eq, text_eq_iff,
  length, take, drop, arith, ok,
}
use layertwine.Engine.Lines.{lines, push_char, join, ends_with_newline}
use layertwine.Engine.Apply.{restore_newline}
use layertwine.Engine.Merge.{
  ChangeRange, MergeConflict, Merge, flush_from, flush_change, start_or, extend, extract_ops,
  has_change, extract_changes, merge_start, merge_changes, merge_texts, take_both, take_conflict,
  append_unchanged, lines_eq, lines_start_with, end_of,
}
use layertwine.Engine.Lines.{slice}
use layertwine.Engine.Merge.Replay.{Replays, done, step, Apart, weave}
use layertwine.Engine.Merge.Loop.{merge-Apart}
use layertwine.Engine.Merge.Sides.{merge_same, merge_swap}
use layertwine.Engine.Merge.Overlap.{merge-overlap}
use layertwine.Engine.Merge.Extract.{extract-Replays}
use layertwine.Engine.Merge.Texts.{merge_texts-Apart}
use layertwine.Tests.Samples.{
  base_text, our_text, their_text, sample_ops, our-IsScript, our_diff, our_diff_made, their_diff,
  their_diff_made,
}

small : length (lines base_text) + 1 < 2 ^ 32
unfolding lines push_char
small = omega arith

extract-Replays_example : Replays 0 (lines base_text) (extract_changes our_diff []) (lines our_text)
extract-Replays_example =
    extract-Replays sample_ops base_text our_text our_diff our-IsScript small our_diff_made

abbrev change : ℕ → ℕ → List Text → ChangeRange
change at count new_lines = record { base_start = at; base_len = count; new_lines = new_lines }

abbrev first_change : ChangeRange
first_change = change 0 1 ((120 ∷ []) ∷ [])

abbrev second_change : ChangeRange
second_change = change 1 1 ((121 ∷ []) ∷ [])

abbrev two_lines : List Text
two_lines = (97 ∷ []) ∷ (98 ∷ []) ∷ []

abbrev both_lines : List Text
both_lines = (120 ∷ []) ∷ (121 ∷ []) ∷ []

apart : Apart (first_change ∷ []) (second_change ∷ [])
apart = ((omega arith, tt), tt)

woven : Replays 0 two_lines (weave (first_change ∷ []) (second_change ∷ [])) both_lines
unfolding weave
woven =
    step {c = first_change} [] ((97 ∷ []) ∷ []) ((98 ∷ []) ∷ []) refl refl
      (step {c = second_change} [] ((98 ∷ []) ∷ []) [] refl refl done)

merge-Apart_example :
    merge_changes two_lines (first_change ∷ []) (second_change ∷ []) ≡ ok (both_lines, [])
merge-Apart_example =
    merge-Apart two_lines both_lines (first_change ∷ []) (second_change ∷ []) apart woven

alone : Replays 0 two_lines (first_change ∷ []) ((120 ∷ []) ∷ (98 ∷ []) ∷ [])
alone = step {c = first_change} [] ((97 ∷ []) ∷ []) ((98 ∷ []) ∷ []) refl refl done

merge_same_example :
    merge_changes two_lines (first_change ∷ []) (first_change ∷ [])
    ≡ ok ((120 ∷ []) ∷ (98 ∷ []) ∷ [], [])
merge_same_example = merge_same two_lines ((120 ∷ []) ∷ (98 ∷ []) ∷ []) (first_change ∷ []) alone

merge_swap_example :
    merge_changes two_lines (first_change ∷ []) (second_change ∷ [])
    ≡ merge_changes two_lines (second_change ∷ []) (first_change ∷ [])
merge_swap_example = merge_swap two_lines (first_change ∷ []) (second_change ∷ []) apart

abbrev no_conflict : List MergeConflict
no_conflict = []

abbrev three_lines : List Text
three_lines = (97 ∷ []) ∷ (98 ∷ []) ∷ (99 ∷ []) ∷ []

abbrev wide_change : ChangeRange
wide_change = change 0 3 ((120 ∷ []) ∷ [])

merge-overlap_example :
    merge_changes three_lines (wide_change ∷ []) (second_change ∷ [])
    ≡ ok (
      ((take wide_change.base_start three_lines ++ wide_change.new_lines)
            ++ second_change.new_lines)
          ++ drop (end_of second_change) three_lines,
      [],
    )
merge-overlap_example =
    merge-overlap three_lines wide_change second_change (omega arith) (omega arith) (omega arith)

abbrev other_first : ChangeRange
other_first = change 0 1 ((122 ∷ []) ∷ [])

abbrev conflicting : Merge
conflicting = record {
  result = (120 ∷ []) ∷ [];
  conflicts =
      record {
        start_line = 0;
        base = (97 ∷ []) ∷ [];
        ours = (120 ∷ []) ∷ [];
        theirs = (122 ∷ []) ∷ [];
      }
      ∷ [];
  base_pos = 1;
}

both_taken : take_both two_lines merge_start first_change other_first ≡ ok conflicting
unfolding take_both take_conflict append_unchanged lines_eq lines_start_with slice
both_taken = refl

diffs-Apart : Apart (extract_changes our_diff []) (extract_changes their_diff [])
unfolding extract_changes has_change extract_ops flush_change flush_from start_or extend
diffs-Apart = ((omega arith, tt), tt)

diffs_woven :
    Replays 0
      (lines base_text)
      (weave (extract_changes our_diff []) (extract_changes their_diff []))
      both_lines
unfolding extract_changes has_change extract_ops flush_change flush_from start_or extend weave lines
    push_char
diffs_woven = woven

our_theirs : our_text ≢ their_text
our_theirs h =
    let same : text_eq our_text their_text ≡ true = (text_eq_iff our_text their_text).1 h in
    absurd (cc)

base_ours : base_text ≢ our_text
base_ours h =
    let same : text_eq base_text our_text ≡ true = (text_eq_iff base_text our_text).1 h in
    absurd (cc)

base_theirs : base_text ≢ their_text
base_theirs h =
    let same : text_eq base_text their_text ≡ true = (text_eq_iff base_text their_text).1 h in
    absurd (cc)

merge_texts-Apart_example :
    merge_texts sample_ops base_text our_text their_text
    ≡ ok (
      restore_newline
          (ends_with_newline base_text
            || (ends_with_newline our_text || ends_with_newline their_text))
          (join both_lines),
      [],
    )
merge_texts-Apart_example =
    merge_texts-Apart sample_ops base_text our_text their_text both_lines our_diff their_diff
      our_theirs base_ours base_theirs our_diff_made their_diff_made diffs-Apart diffs_woven
