-- ===== src/Engine/Apply.antt =====
-- `apply_line_diff` and `apply_deltas` of src/engine/merge.rs. A delta is its diff here.
use layertwine.Prelude.{
  ℕ, ◌+◌, ◌-◌, Bool, not, ◌&&◌, List, [], ◌∷◌, ◌++◌, Text, length, ltb, if◌then◌else◌, Result, ok,
  err, Error, ◌>>=◌,
}
use layertwine.Core.LineDiff.{DiffOp, equal, delete, insert, replace, Hunk, LineDiff}
use layertwine.Engine.Lines.{newline, lines, join, ends_with_newline, is_empty_text, slice}

-- The operations of one hunk from line `hunk_pos` on; gives the lines that they append.
unfoldable pub apply_ops : List Text → ℕ → List DiffOp → List Text → Result (List Text)
apply_ops old hunk_pos [] result = ok result
apply_ops old hunk_pos (equal count ∷ ops) result =
    slice old hunk_pos (hunk_pos + count) >>= λ kept.
    apply_ops old (hunk_pos + count) ops (result ++ kept)
apply_ops old hunk_pos (delete at count ∷ ops) result = apply_ops old (hunk_pos + count) ops result
apply_ops old hunk_pos (insert at new_lines ∷ ops) result =
    apply_ops old hunk_pos ops (result ++ new_lines)
apply_ops old hunk_pos (replace at count to new_lines ∷ ops) result =
    apply_ops old (hunk_pos + count) ops (result ++ new_lines)

-- One round of the loop over hunks; gives `result` and `old_pos`.
unfoldable pub apply_hunk : List Text → Hunk → ℕ → List Text → Result (List Text × ℕ)
apply_hunk old hunk old_pos result =
    let hunk_start = hunk.old_start - 1 in
    let hunk_end = hunk_start + hunk.old_len in
    if ltb hunk_start old_pos
    then err Error.engine
    else if ltb (length old) hunk_end
    then err Error.engine
    else do
      before ← if ltb old_pos hunk_start then slice old old_pos hunk_start else ok []
      result' ← apply_ops old hunk_start hunk.ops (result ++ before)
      ok (result', hunk_end)

unfoldable pub apply_hunks : List Text → List Hunk → ℕ → List Text → Result (List Text)
apply_hunks old [] old_pos result =
    if ltb old_pos (length old)
    then (slice old old_pos (length old) >>= λ rest. ok (result ++ rest))
    else ok result
apply_hunks old (hunk ∷ hunks) old_pos result =
    apply_hunk old hunk old_pos result >>= λ (result', pos). apply_hunks old hunks pos result'

unfoldable pub apply_line_diff : List Text → LineDiff → Result (List Text)
apply_line_diff old diff = apply_hunks old diff 0 []

unfoldable pub apply_diffs : List Text → List LineDiff → Result (List Text)
apply_diffs old [] = ok old
apply_diffs old (diff ∷ diffs) = apply_line_diff old diff >>= λ next. apply_diffs next diffs

-- `.join("\n")`, and the trailing newline put back.
unfoldable pub restore_newline : Bool → Text → Text
restore_newline had text = if had && not (is_empty_text text) then text ++ (newline ∷ []) else text

unfoldable pub apply_deltas : Text → List LineDiff → Result Text
apply_deltas content [] = ok content
apply_deltas content (diff ∷ diffs) = apply_diffs (lines content) (diff ∷ diffs) >>= λ new.
    ok (restore_newline (ends_with_newline content) (join new))
