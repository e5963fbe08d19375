-- ===== src/Tests/Samples.antt =====
-- A base of two lines, and two sides that change one of them each: the script that `similar` gives for each.
use layertwine.Prelude.{ℕ, ◌+◌, ◌≡◌, refl, List, [], ◌∷◌, Text, text_eq, if◌then◌else◌, ok}
use layertwine.Engine.Lines.{lines, push_char}
use layertwine.Core.LineDiff.{DiffOp, LineDiff}
use layertwine.Engine.Diff.{
  diff_to_line_diff, to_hunks, to_hunk, hunk_of, last_op, to_diff_ops, to_diff_op, to_diff_op_of,
  DiffTag, ChangeTag, TextOp, change_lines, inserted_lines, strip_newline,
}
use layertwine.Engine.Diff.Script.{IsScript, done, group, nil, cons}

abbrev pub base_text : Text
base_text = 97 ∷ 10 ∷ 98 ∷ 10 ∷ []

abbrev pub our_text : Text
our_text = 120 ∷ 10 ∷ 98 ∷ 10 ∷ []

abbrev pub their_text : Text
their_text = 97 ∷ 10 ∷ 121 ∷ 10 ∷ []

abbrev op_replace : (at : ℕ) → Text → Text → TextOp
op_replace at old new = record {
  tag = DiffTag.replace;
  old_from = at;
  old_to = at + 1;
  new_from = at;
  new_to = at + 1;
  changes = (ChangeTag.delete, old) ∷ (ChangeTag.insert, new) ∷ [];
}

abbrev op_equal : (at : ℕ) → Text → TextOp
op_equal at line = record {
  tag = DiffTag.equal;
  old_from = at;
  old_to = at + 1;
  new_from = at;
  new_to = at + 1;
  changes = (ChangeTag.equal, line) ∷ [];
}

abbrev pub sample_ops : Text → Text → List (List TextOp)
sample_ops old new =
    if text_eq new our_text
    then (op_replace 0 (97 ∷ 10 ∷ []) (120 ∷ 10 ∷ []) ∷ op_equal 1 (98 ∷ 10 ∷ []) ∷ []) ∷ []
    else (op_equal 0 (97 ∷ 10 ∷ []) ∷ op_replace 1 (98 ∷ 10 ∷ []) (121 ∷ 10 ∷ []) ∷ []) ∷ []

pub our-IsScript : IsScript (sample_ops base_text our_text) 0 0 (lines base_text) (lines our_text)
unfolding lines push_char change_lines inserted_lines strip_newline
our-IsScript =
    group []
      (cons {o = (97 ∷ []) ∷ []} {n = (120 ∷ []) ∷ []}
        (record { old_from = refl; old_to = refl; new_from = refl; new_to = refl; body = refl })
        (cons {o = (98 ∷ []) ∷ []} {n = (98 ∷ []) ∷ []}
          (record { old_from = refl; old_to = refl; new_from = refl; new_to = refl; body = refl })
          nil))
      done

pub their-IsScript :
    IsScript (sample_ops base_text their_text) 0 0 (lines base_text) (lines their_text)
unfolding lines push_char change_lines inserted_lines strip_newline
their-IsScript =
    group []
      (cons {o = (97 ∷ []) ∷ []} {n = (97 ∷ []) ∷ []}
        (record { old_from = refl; old_to = refl; new_from = refl; new_to = refl; body = refl })
        (cons {o = (98 ∷ []) ∷ []} {n = (121 ∷ []) ∷ []}
          (record { old_from = refl; old_to = refl; new_from = refl; new_to = refl; body = refl })
          nil))
      done

abbrev pub our_diff : LineDiff
our_diff =
    record {
      old_start = 1;
      old_len = 2;
      new_start = 1;
      new_len = 2;
      ops = DiffOp.replace 1 1 1 ((120 ∷ []) ∷ []) ∷ DiffOp.equal 1 ∷ [];
    }
    ∷ []

pub our_diff_made : diff_to_line_diff sample_ops base_text our_text ≡ ok our_diff
unfolding diff_to_line_diff to_hunks to_hunk hunk_of last_op to_diff_ops to_diff_op to_diff_op_of
    inserted_lines strip_newline
our_diff_made = refl

abbrev pub their_diff : LineDiff
their_diff =
    record {
      old_start = 1;
      old_len = 2;
      new_start = 1;
      new_len = 2;
      ops = DiffOp.equal 1 ∷ DiffOp.replace 2 1 2 ((121 ∷ []) ∷ []) ∷ [];
    }
    ∷ []

pub their_diff_made : diff_to_line_diff sample_ops base_text their_text ≡ ok their_diff
unfolding diff_to_line_diff to_hunks to_hunk hunk_of last_op to_diff_ops to_diff_op to_diff_op_of
    inserted_lines strip_newline
their_diff_made = refl
