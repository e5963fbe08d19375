-- ===== src/Engine/Diff.antt =====
-- `diff_to_line_diff` of src/engine/diff.rs. The crate `similar` is the parameter `grouped_ops`, which
-- stands for `TextDiff::from_lines(old, new).grouped_ops(3)` with each operation's changes; `IsScript`
-- is what the crate documents of it. A `usize` is unbounded, and `as u32` keeps its wrap-around.
pub mod Script
pub mod RoundTrip
pub mod Rebuild
use layertwine.Prelude.{
  ℕ, ◌+◌, ◌-◌, ◌%◌, ◌^◌, Bool, true, false, ◌||◌, List, [], ◌∷◌, Text, text_eq, if◌then◌else◌, ◌==◌,
  Result, ok, err, Error, ◌>>=◌,
}
use layertwine.Core.LineDiff.{DiffOp, Hunk, LineDiff}
use layertwine.Engine.Lines.{newline, carriage_return}

pub data DiffTag : Type 0 where
  equal delete insert replace : DiffTag

pub data ChangeTag : Type 0 where
  equal delete insert : ChangeTag

-- An operation of `similar`: its tag, its two ranges, and what `iter_changes` gives for it.
pub record TextOp : Type 0 where
  pub tag : DiffTag
  pub old_from : ℕ
  pub old_to : ℕ
  pub new_from : ℕ
  pub new_to : ℕ
  pub changes : List (ChangeTag × Text)

-- `trim_end_matches(['\n', '\r'])`, which leaves a text with no such ending as it is.
unfoldable pub strip_newline : Text → Text
strip_newline [] = []
strip_newline (c ∷ s) = elim (strip_newline s) [
  | [] ↦ if (c == newline) || (c == carriage_return) then [] else c ∷ []
  | d ∷ t ↦ c ∷ d ∷ t
]

abbrev pub u32 : ℕ → ℕ
u32 n = n % 2 ^ 32

-- The lines of an `Insert`: every change.
unfoldable pub change_lines : List (ChangeTag × Text) → List Text
change_lines [] = []
change_lines ((tag, value) ∷ changes) = strip_newline value ∷ change_lines changes

-- The lines of a `Replace`: the inserted ones.
unfoldable pub inserted_lines : List (ChangeTag × Text) → List Text
inserted_lines [] = []
inserted_lines ((ChangeTag.insert, value) ∷ changes) = strip_newline value ∷ inserted_lines changes
inserted_lines ((tag, value) ∷ changes) = inserted_lines changes

unfoldable pub to_diff_op_of : DiffTag → TextOp → DiffOp
to_diff_op_of DiffTag.equal op = DiffOp.equal (u32 (op.old_to - op.old_from))
to_diff_op_of DiffTag.delete op =
    DiffOp.delete (u32 (u32 op.old_from + 1)) (u32 (op.old_to - op.old_from))
to_diff_op_of DiffTag.insert op =
    DiffOp.insert (u32 (u32 op.new_from + 1)) (change_lines op.changes)
to_diff_op_of DiffTag.replace op =
    DiffOp.replace (u32 (u32 op.old_from + 1)) (u32 (op.old_to - op.old_from))
      (u32 (u32 op.new_from + 1)) (inserted_lines op.changes)

unfoldable pub to_diff_op : TextOp → DiffOp
unfolding to_diff_op_of
to_diff_op op = to_diff_op_of op.tag op

unfoldable pub to_diff_ops : List TextOp → List DiffOp
to_diff_ops [] = []
to_diff_ops (op ∷ ops) = to_diff_op op ∷ to_diff_ops ops

unfoldable pub last_op : TextOp → List TextOp → TextOp
last_op op [] = op
last_op op (next ∷ ops) = last_op next ops

unfoldable pub hunk_of : TextOp → List TextOp → Hunk
hunk_of first ops =
    let last = last_op first ops in
    record {
      old_start = u32 (u32 first.old_from + 1);
      old_len = u32 (last.old_to - first.old_from);
      new_start = u32 (u32 first.new_from + 1);
      new_len = u32 (last.new_to - first.new_from);
      ops = to_diff_ops (first ∷ ops);
    }

-- A group with no operation fails the `expect`.
unfoldable pub to_hunk : List TextOp → Result Hunk
to_hunk [] = err Error.panic
to_hunk (first ∷ ops) = ok (hunk_of first ops)

unfoldable pub to_hunks : List (List TextOp) → Result LineDiff
to_hunks [] = ok []
to_hunks (group ∷ groups) = do hunk ← to_hunk group; hunks ← to_hunks groups; ok (hunk ∷ hunks)

unfoldable pub diff_to_line_diff :
    (grouped_ops : Text → Text → List (List TextOp)) → Text → Text → Result LineDiff
diff_to_line_diff grouped_ops old new =
    if text_eq old new then ok [] else to_hunks (grouped_ops old new)
