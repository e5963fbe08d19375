-- ===== src/Core/LineDiff.antt =====
-- `DiffOp`, `Hunk` and `LineDiff` of src/core/types.rs, and the statistics of src/core/delta.rs.
use layertwine.Prelude.{ℕ, ◌+◌, Bool, true, false, List, [], ◌∷◌, Text, length}

pub data DiffOp : Type 0 where
  equal : ℕ → DiffOp
  delete : (old_start count : ℕ) → DiffOp
  insert : (new_start : ℕ) → List Text → DiffOp
  replace : (old_start old_count new_start : ℕ) → List Text → DiffOp

pub record Hunk : Type 0 where
  pub old_start : ℕ
  pub old_len : ℕ
  pub new_start : ℕ
  pub new_len : ℕ
  pub ops : List DiffOp

-- A `LineDiff` has the one field `hunks`.
abbrev pub LineDiff : Type 0
LineDiff = List Hunk

unfoldable pub is_empty : LineDiff → Bool
is_empty [] = true
is_empty (h ∷ hs) = false

pub record DeltaSummary : Type 0 where
  pub inserts : ℕ
  pub deletes : ℕ
  pub replaces : ℕ
  pub total_hunks : ℕ

-- The body of the inner loop of `Delta::summary`.
unfoldable count_op : DeltaSummary → DiffOp → DeltaSummary
count_op s (equal n) = s
count_op s (delete at n) = record s { deletes = s.deletes + n }
count_op s (insert at ls) = record s { inserts = s.inserts + length ls }
count_op s (replace at n to ls) = record s { replaces = s.replaces + length ls }

unfoldable count_ops : DeltaSummary → List DiffOp → DeltaSummary
count_ops s [] = s
count_ops s (op ∷ ops) = count_ops (count_op s op) ops

unfoldable count_hunks : DeltaSummary → List Hunk → DeltaSummary
count_hunks s [] = s
count_hunks s (h ∷ hs) = count_hunks (count_ops s h.ops) hs

unfoldable pub summary : LineDiff → DeltaSummary
unfolding count_hunks count_ops count_op
summary diff =
    count_hunks (record { inserts = 0; deletes = 0; replaces = 0; total_hunks = length diff }) diff
