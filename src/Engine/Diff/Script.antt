-- ===== src/Engine/Diff/Script.antt =====
-- What `similar` documents of its grouped operations: in order, they turn the lines of the old text
-- into those of the new one, and the lines between two groups are the same in both.
use layertwine.Prelude.{ℕ, ◌+◌, ◌≡◌, List, [], ◌∷◌, ◌++◌, Text, length}
use layertwine.Engine.Diff.{DiffTag, TextOp, change_lines, inserted_lines}

-- `o` are the old lines of the operation and `n` the new ones.
abbrev pub OpLines : DiffTag → TextOp → List Text → List Text → Type 0
OpLines DiffTag.equal op o n = n ≡ o
OpLines DiffTag.delete op o n = n ≡ []
OpLines DiffTag.insert op o n = (o ≡ []) × (n ≡ change_lines op.changes)
OpLines DiffTag.replace op o n = n ≡ inserted_lines op.changes

pub record IsOp (op : TextOp) (i j : ℕ) (o n : List Text) : Type 0 where
  pub old_from : op.old_from ≡ i
  pub old_to : op.old_to ≡ i + length o
  pub new_from : op.new_from ≡ j
  pub new_to : op.new_to ≡ j + length n
  pub body : OpLines op.tag op o n

pub data IsGroup : List TextOp → ℕ → ℕ → List Text → List Text → Type 0 where
  nil : {i j : ℕ} → IsGroup [] i j [] []
  cons :
      {op : TextOp} {ops : List TextOp} {i j : ℕ} {o n o' n' : List Text}
      → IsOp op i j o n
      → IsGroup ops (i + length o) (j + length n) o' n'
      → IsGroup (op ∷ ops) i j (o ++ o') (n ++ n')

pub data IsScript : List (List TextOp) → ℕ → ℕ → List Text → List Text → Type 0 where
  done : {i j : ℕ} {rest : List Text} → IsScript [] i j rest rest
  group :
      {op : TextOp} {ops : List TextOp} {groups : List (List TextOp)} {i j : ℕ} (gap : List Text)
      {o n o' n' : List Text}
      → IsGroup (op ∷ ops) (i + length gap) (j + length gap) o n
      → IsScript groups (i + length gap + length o) (j + length gap + length n) o' n'
      → IsScript ((op ∷ ops) ∷ groups) i j (gap ++ (o ++ o')) (gap ++ (n ++ n'))
