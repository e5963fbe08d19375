-- ===== src/Engine/Merge.antt =====
-- `merge_texts` of src/engine/merge.rs: the changes that two diffs make to one base, replayed together.
-- The indices `our_idx` and `their_idx` are the lists of changes still to come, so the `while` loop is
-- a recursion on those.
pub mod Replay
pub mod Extract
pub mod Loop
pub mod Sides
pub mod Overlap
pub mod Texts
use layertwine.Prelude.{
  ℕ, zero, ◌+◌, ◌-◌, ◌≡◌, Bool, true, false, not, ◌&&◌, ◌||◌, List, [], ◌∷◌, ◌++◌, Option, none,
  some, Text, max, min, length, take, drop, ltb, ◌==◌, text_eq, if◌then◌else◌, Result, ok, err,
  Error, ◌>>=◌,
}
use layertwine.Core.LineDiff.{DiffOp, equal, delete, insert, replace, Hunk, LineDiff}
use layertwine.Engine.Lines.{newline, lines, join, ends_with_newline, is_empty_text, slice}
use layertwine.Engine.Apply.{restore_newline}
use layertwine.Engine.Diff.{TextOp, diff_to_line_diff}

pub record ChangeRange : Type 0 where
  pub base_start : ℕ
  pub base_len : ℕ
  pub new_lines : List Text

pub record MergeConflict : Type 0 where
  pub start_line : ℕ
  pub base : List Text
  pub ours : List Text
  pub theirs : List Text

-- The accumulators of `extract_changes_from_line_diff`.
pub record Pending : Type 0 where
  pub start : Option ℕ
  pub len : ℕ
  pub new_lines : List Text

abbrev pub nothing_pending : Pending
nothing_pending = record { start = none; len = 0; new_lines = [] }

-- With no start the accumulated lines stay, but then there are none.
unfoldable pub flush_from : Option ℕ → List ChangeRange → Pending → List ChangeRange × Pending
flush_from none changes p = (changes, record p { start = none; len = 0 })
flush_from (some start) changes p = (
  changes ++ (record { base_start = start; base_len = p.len; new_lines = p.new_lines } ∷ []),
  nothing_pending,
)

unfoldable pub flush_change : List ChangeRange → Pending → List ChangeRange × Pending
unfolding flush_from
flush_change changes p = flush_from p.start changes p

unfoldable pub start_or : Option ℕ → ℕ → ℕ
start_or none at = at
start_or (some start) at = start

-- A `Delete`, `Insert` or `Replace` that takes `count` old lines at line `at` of the base.
unfoldable pub extend : Pending → (at count : ℕ) → List Text → Pending
unfolding start_or
extend p at count ls = record {
  start = some (start_or p.start at);
  len = p.len + count;
  new_lines = p.new_lines ++ ls;
}

unfoldable pub extract_ops :
    (cursor : ℕ) → List DiffOp → List ChangeRange → Pending → List ChangeRange
extract_ops cursor [] changes p = (flush_change changes p).0
extract_ops cursor (equal count ∷ ops) changes p =
    extract_ops (cursor + count) ops (flush_change changes p).0 (flush_change changes p).1
extract_ops cursor (insert at ls ∷ ops) changes p =
    extract_ops cursor ops changes (extend p cursor 0 ls)
extract_ops cursor (delete at count ∷ ops) changes p =
    extract_ops (cursor + count) ops changes (extend p cursor count [])
extract_ops cursor (replace at count to ls ∷ ops) changes p =
    extract_ops (cursor + count) ops changes (extend p cursor count ls)

unfoldable pub has_change : List DiffOp → Bool
has_change [] = false
has_change (equal count ∷ ops) = has_change ops
has_change (op ∷ ops) = true

-- `old_cursor` counts from the hunk's start; here the cursor is the line of the base.
unfoldable pub extract_changes : LineDiff → List ChangeRange → List ChangeRange
extract_changes [] changes = changes
extract_changes (hunk ∷ hunks) changes = extract_changes hunks (
    if has_change hunk.ops
    then extract_ops (hunk.old_start - 1) hunk.ops changes nothing_pending
    else changes)

-- The base is cut at its length; a start behind its end panics, as the slice does.
unfoldable pub append_unchanged : List Text → List Text → ℕ → ℕ → Result (List Text)
append_unchanged result base from to =
    if ltb from to
    then (slice base from (min to (length base)) >>= λ kept. ok (result ++ kept))
    else ok result

abbrev pub append_change : List Text → ChangeRange → List Text
append_change result change = result ++ change.new_lines

unfoldable pub lines_eq : List Text → List Text → Bool
lines_eq [] [] = true
lines_eq [] (m ∷ ms) = false
lines_eq (l ∷ ls) [] = false
lines_eq (l ∷ ls) (m ∷ ms) = text_eq l m && lines_eq ls ms

-- `xs.starts_with(prefix)`.
unfoldable pub lines_start_with : List Text → List Text → Bool
lines_start_with xs [] = true
lines_start_with [] (p ∷ ps) = false
lines_start_with (x ∷ xs) (p ∷ ps) = text_eq x p && lines_start_with xs ps

-- The state of the loop.
pub record Merge : Type 0 where
  pub result : List Text
  pub conflicts : List MergeConflict
  pub base_pos : ℕ

abbrev pub end_of : ChangeRange → ℕ
end_of c = c.base_start + c.base_len

-- One change that is applied by itself; `pos` is the new `base_pos`.
unfoldable pub take_change : List Text → Merge → ChangeRange → (pos : ℕ) → Result Merge
take_change base m c pos = do
  result ← append_unchanged m.result base m.base_pos c.base_start
  ok (record m { result = append_change result c; base_pos = pos })

-- Ours is written and the conflict noted.
unfoldable pub take_conflict : List Text → Merge → (oc tc : ChangeRange) → Result Merge
take_conflict base m oc tc = do
  result ← append_unchanged m.result base m.base_pos oc.base_start
  replaced ← slice base oc.base_start (oc.base_start + oc.base_len)
  ok (record {
    result = append_change result oc;
    conflicts =
        m.conflicts
        ++ (record {
          start_line = length result;
          base = replaced;
          ours = oc.new_lines;
          theirs = tc.new_lines;
        }
            ∷ []);
    base_pos = max (end_of oc) (end_of tc);
  })

-- Two changes that begin at the same line.
unfoldable pub take_both : List Text → Merge → (oc tc : ChangeRange) → Result Merge
take_both base m oc tc =
    if (oc.base_len == tc.base_len) && lines_eq oc.new_lines tc.new_lines
    then take_change base m oc (end_of oc)
    else if (oc.base_len == 0) && (tc.base_len == 0)
    then (if lines_start_with tc.new_lines oc.new_lines
        then take_change base m tc oc.base_start
        else if lines_start_with oc.new_lines tc.new_lines
        then take_change base m oc oc.base_start
        else take_conflict base m oc tc)
    else take_conflict base m oc tc

unfoldable pub merge_loop : List Text → List ChangeRange → List ChangeRange → Merge → Result Merge
merge_loop base [] [] m = ok m
merge_loop base [] (tc ∷ theirs) m =
    take_change base m tc (end_of tc) >>= λ m'. merge_loop base [] theirs m'
merge_loop base (oc ∷ ours) [] m =
    take_change base m oc (end_of oc) >>= λ m'. merge_loop base ours [] m'
merge_loop base (oc ∷ ours) (tc ∷ theirs) m = elim (ltb oc.base_start tc.base_start) [
  | true ↦ take_change base m oc (end_of oc) >>= λ m'. merge_loop base ours (tc ∷ theirs) m'
  | false ↦ elim (ltb tc.base_start oc.base_start) [
    | true ↦ take_change base m tc (end_of tc) >>= λ m'. merge_loop base (oc ∷ ours) theirs m'
    | false ↦ take_both base m oc tc >>= λ m'. merge_loop base ours theirs m'
  ]
]

abbrev pub merge_start : Merge
merge_start = record { result = []; conflicts = []; base_pos = 0 }

-- The loop, and the rest of the base behind it.
unfoldable pub merge_changes :
    List Text → List ChangeRange → List ChangeRange → Result (List Text × List MergeConflict)
merge_changes base ours theirs = do
  m ← merge_loop base ours theirs merge_start
  ok (
    (if ltb m.base_pos (length base) then m.result ++ drop m.base_pos base else m.result),
    m.conflicts,
  )

-- The fast paths: a trailing newline of any of the three texts is put back.
unfoldable pub with_newline : Bool → Text → Text
with_newline had text =
    if had && (not (is_empty_text text) && not (ends_with_newline text))
    then text ++ (newline ∷ [])
    else text

unfoldable pub merge_texts :
    (grouped_ops : Text → Text → List (List TextOp))
    → (base ours theirs : Text) → Result (Text × List MergeConflict)
merge_texts grouped_ops base ours theirs =
    let had = ends_with_newline base || (ends_with_newline ours || ends_with_newline theirs) in
    if text_eq ours theirs
    then ok (with_newline had ours, [])
    else if text_eq base theirs
    then ok (with_newline had ours, [])
    else if text_eq base ours
    then ok (with_newline had theirs, [])
    else do
      diff_ours ← diff_to_line_diff grouped_ops base ours
      diff_theirs ← diff_to_line_diff grouped_ops base theirs
      merged ←
          merge_changes (lines base) (extract_changes diff_ours []) (extract_changes diff_theirs [])
      ok (restore_newline had (join merged.0), merged.1)
