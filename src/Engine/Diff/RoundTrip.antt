-- ===== src/Engine/Diff/RoundTrip.antt =====
-- The diff of two texts (src/engine/diff.rs), applied to the old one (src/engine/merge.rs).
use mathlib.Core.List.{append_assoc, append-nil}
use layertwine.Prelude.{
  ℕ, suc, true, false, ◌+◌, ◌-◌, ◌%◌, ◌^◌, ◌<◌, ◌≡◌, refl, ap, ◌∙◌, List, [], ◌∷◌, ◌++◌, Text,
  length, drop, ok, arith, length-append, leb, ltb, take-append, drop-append, text_eq, text_eq_iff,
  Bool-cases, if◌then◌else◌, inl, inr,
}
use layertwine.Core.LineDiff.{LineDiff, DiffOp}
use layertwine.Engine.Lines.{lines, slice}
use layertwine.Engine.Apply.{apply_ops, apply_hunk, apply_hunks, apply_line_diff}
use layertwine.Engine.Diff.{
  DiffTag, TextOp, to_diff_op_of, to_diff_op, to_diff_ops, last_op, hunk_of, to_hunk, to_hunks,
  diff_to_line_diff,
}
use layertwine.Engine.Diff.Script.{OpLines, IsOp, IsGroup, nil, cons, IsScript, done, group}

pub drop-length {ℓ} :
    {A : Type ℓ} (xs ys zs : List A) (n : ℕ) → zs ≡ xs ++ ys → length xs ≡ n → drop n zs ≡ ys
drop-length xs ys zs n e l = rw (e, ← l) (drop-append xs ys)

-- A slice that starts behind `pre` and is as long as `mid`.
pub slice-middle {ℓ} :
    {A : Type ℓ} (xs pre mid post : List A) (n m : ℕ)
    → xs ≡ pre ++ (mid ++ post)
    → length pre ≡ n
    → m ≡ n + length mid
    → slice xs n m ≡ ok mid
unfolding slice
slice-middle xs pre mid post n m e l k =
    let size : length xs ≡ n + (length mid + length post) =
      omega (arith, ap length e, length-append pre (mid ++ post), length-append mid post) in
    let d : drop n xs ≡ mid ++ post = drop-length pre (mid ++ post) xs n e l in
    let t : m - n ≡ length mid = omega arith in
    let p : leb n m ≡ true = ground arith in
    let q : leb m (length xs) ≡ true = ground arith in
    rw (p, q, d, t) (ap ok (take-append mid post))

-- The place behind `o`, for what is left of the old lines.
pub shift :
    (old pre o rest : List Text) (i : ℕ)
    → old ≡ pre ++ (o ++ rest)
    → length pre ≡ i
    → (old ≡ (pre ++ o) ++ rest) × (length (pre ++ o) ≡ i + length o)
shift old pre o rest i e l = (rw append_assoc e, omega (arith, length-append pre o))

u32_small : (n : ℕ) → n < 2 ^ 32 → n % 2 ^ 32 ≡ n
u32_small n h = omega arith

step-equal :
    (old pre o post result : List Text) (i count : ℕ) (ops : List DiffOp)
    → old ≡ pre ++ (o ++ post)
    → length pre ≡ i
    → count ≡ length o
    → apply_ops old i (DiffOp.equal count ∷ ops) result
      ≡ apply_ops old (i + length o) ops (result ++ o)
unfolding apply_ops
step-equal old pre o post result i count ops e l c =
    rw (c, slice-middle old pre o post i (i + length o) e l refl)

apply_op_of :
    (t : DiffTag) (op : TextOp) (i j : ℕ) (o n : List Text) (old pre post result : List Text)
    (ops : List DiffOp)
    → IsOp op i j o n
    → OpLines t op o n
    → old ≡ pre ++ (o ++ post)
    → length pre ≡ i
    → length o < 2 ^ 32
    → apply_ops old i (to_diff_op_of t op ∷ ops) result
      ≡ apply_ops old (i + length o) ops (result ++ n)
unfolding apply_ops to_diff_op_of
apply_op_of DiffTag.equal op i j o n old pre post result ops h body e l b =
    rw body (step-equal old pre o post result i _ ops e l (omega (arith, h.old_from, h.old_to)))
apply_op_of DiffTag.delete op i j o n old pre post result ops h body e l b =
    let width : (op.old_to - op.old_from) % 2 ^ 32 ≡ length o =
      omega (arith, h.old_from, h.old_to) in
    rw (body, append-nil, width)
apply_op_of DiffTag.insert op i j o n old pre post result ops h body e l b =
    let here : i + length o ≡ i = rw body.0 (omega arith) in rw (body.1, here)
apply_op_of DiffTag.replace op i j o n old pre post result ops h body e l b =
    let width : (op.old_to - op.old_from) % 2 ^ 32 ≡ length o =
      omega (arith, h.old_from, h.old_to) in
    rw (body, width)

apply_op :
    (op : TextOp) {i j : ℕ} {o n : List Text} (old pre post result : List Text) (ops : List DiffOp)
    → IsOp op i j o n
    → old ≡ pre ++ (o ++ post)
    → length pre ≡ i
    → length o < 2 ^ 32
    → apply_ops old i (to_diff_op op ∷ ops) result ≡ apply_ops old (i + length o) ops (result ++ n)
unfolding to_diff_op
apply_op op {i} {j} {o} {n} old pre post result ops h e l b =
    apply_op_of op.tag op i j o n old pre post result ops h h.body e l b

-- A whole group turns its old lines into its new ones.
apply_group :
    {ops : List TextOp} {i j : ℕ} {o n : List Text} (old pre post result : List Text)
    → IsGroup ops i j o n
    → old ≡ pre ++ (o ++ post)
    → length pre ≡ i
    → length o < 2 ^ 32
    → apply_ops old i (to_diff_ops ops) result ≡ ok (result ++ n)
unfolding to_diff_ops
apply_group old pre post result nil e l b = unfold apply_ops in rw append-nil refl
apply_group old pre post result (cons {op} {ops} {i} {j} {o} {n} {o'} {n'} h rest) e l b =
    let e' : old ≡ pre ++ (o ++ (o' ++ post)) = rw append_assoc at e in
    let size : length (o ++ o') ≡ length o + length o' = length-append o o' in
    let (e'', l') = shift old pre o (o' ++ post) i e' l in
    apply_op op old pre (o' ++ post) result (to_diff_ops ops) h e' l (omega arith)
    ∙ apply_group old (pre ++ o) post (result ++ n) rest e'' l' (omega arith)
    ∙ ap ok (append_assoc result n n')

-- The last operation of a group ends where the group ends.
pub last_op-old_to :
    (op : TextOp) (ops : List TextOp) {i j : ℕ} {o n : List Text}
    → IsGroup (op ∷ ops) i j o n
    → (last_op op ops).old_to ≡ i + length o
unfolding last_op
last_op-old_to op [] (cons {i} {j} {o = a} h nil) =
    omega (arith, h.old_to, ap length (append-nil a))
last_op-old_to op (next ∷ ops) (cons {o = a} {o' = b} h rest) =
    omega (arith, last_op-old_to next ops rest, length-append a b)

pub first_op-old_from :
    (op : TextOp) (ops : List TextOp) {i j : ℕ} {o n : List Text}
    → IsGroup (op ∷ ops) i j o n
    → op.old_from ≡ i
first_op-old_from op ops (cons h rest) = h.old_from

-- The unchanged lines before a hunk are copied, also where there are none.
copy-gap :
    (old pre gap post : List Text) (i : ℕ)
    → old ≡ pre ++ (gap ++ post)
    → length pre ≡ i
    → (if ltb i (i + length gap) then slice old i (i + length gap) else ok []) ≡ ok gap
copy-gap old pre [] post i e l = let same : ltb i (i + 0) ≡ false = ground arith in rw same
copy-gap old pre (x ∷ gap) post i e l =
    let more : ltb i (i + suc (length gap)) ≡ true = ground arith in
    rw more (slice-middle old pre (x ∷ gap) post i (i + suc (length gap)) e l refl)

-- One hunk copies the lines before it and puts the new lines of its group behind them.
apply_hunk-group :
    (op : TextOp) (ops : List TextOp) {i j : ℕ} {o n : List Text}
    (old pre gap post result : List Text)
    → IsGroup (op ∷ ops) (i + length gap) j o n
    → old ≡ pre ++ (gap ++ (o ++ post))
    → length pre ≡ i
    → length old + 1 < 2 ^ 32
    → apply_hunk old (hunk_of op ops) i result
      ≡ ok ((result ++ gap) ++ n, i + length gap + length o)
unfolding apply_hunk hunk_of
apply_hunk-group op ops {i} {j} {o} {n} old pre gap post result g e l b =
    let size : length old ≡ i + length gap + length o + length post = omega (
      arith,
      ap length e,
      length-append pre (gap ++ (o ++ post)),
      length-append gap (o ++ post),
      length-append o post,
    ) in
    let first = first_op-old_from op ops g in
    let last = last_op-old_to op ops g in
    let start : (op.old_from % 2 ^ 32 + 1) % 2 ^ 32 - 1 ≡ i + length gap = omega arith in
    let width : ((last_op op ops).old_to - op.old_from) % 2 ^ 32 ≡ length o = omega arith in
    let ordered : ltb (i + length gap) i ≡ false = ground arith in
    let inside : ltb (length old) (i + length gap + length o) ≡ false = ground arith in
    let (e', l') = shift old pre gap (o ++ post) i e l in
    rw (
      start,
      width,
      ordered,
      inside,
      copy-gap old pre gap (o ++ post) i e l,
      apply_group old (pre ++ gap) post (result ++ gap) g e' l' (omega arith),
    )

-- Behind the last hunk the rest is copied.
pub apply-rest :
    (old pre rest result : List Text) (i : ℕ)
    → old ≡ pre ++ rest
    → length pre ≡ i
    → apply_hunks old [] i result ≡ ok (result ++ rest)
unfolding apply_hunks
apply-rest old pre [] result i e l =
    let size : length old ≡ i = omega (arith, ap length e, ap length (append-nil pre)) in
    let ended : ltb i (length old) ≡ false = ground arith in rw (ended, append-nil)
apply-rest old pre (x ∷ rest) result i e l =
    let size : length old ≡ i + suc (length rest) =
      omega (arith, ap length e, length-append pre (x ∷ rest)) in
    let more : ltb i (length old) ≡ true = ground arith in
    let e' : old ≡ pre ++ ((x ∷ rest) ++ []) = rw append-nil e in
    rw (more, slice-middle old pre (x ∷ rest) [] i (length old) e' l size)

apply-script :
    {groups : List (List TextOp)} {i j : ℕ} {olds news : List Text} (old pre result : List Text)
    → IsScript groups i j olds news
    → old ≡ pre ++ olds
    → length pre ≡ i
    → length old + 1 < 2 ^ 32
    → (hunks : LineDiff) × (to_hunks groups ≡ ok hunks)
      × (apply_hunks old hunks i result ≡ ok (result ++ news))
unfolding to_hunks apply_hunks to_hunk
apply-script old pre result (done {i} {j} {rest}) e l b =
    ([], refl, apply-rest old pre rest result i e l)
apply-script old pre result (group {op} {ops} {groups} {i} {j} gap {o} {n} {o'} {n'} g rest) e l b =
    let (e1, l1) = shift old pre gap (o ++ o') i e l in
    let (e2, l2) = shift old (pre ++ gap) o o' (i + length gap) e1 l1 in
    let (hunks, made, applied) =
      apply-script old ((pre ++ gap) ++ o) ((result ++ gap) ++ n) rest e2 l2 b in
    let one = apply_hunk-group op ops old pre gap o' result g e l b in
    (hunk_of op ops ∷ hunks, rw made, rw one (applied ∙ simp append_assoc))

-- Where the crate's operations turn the lines of `old` into those of `new`, and `old` has fewer than
-- 2^32 - 1 lines, the diff of the two texts is produced, and applying it to the lines of `old`
-- succeeds and gives the lines of `new`.
pub apply-diff :
    (grouped_ops : Text → Text → List (List TextOp)) (old new : Text)
    → IsScript (grouped_ops old new) 0 0 (lines old) (lines new)
    → length (lines old) + 1 < 2 ^ 32
    → (diff : LineDiff) × (diff_to_line_diff grouped_ops old new ≡ ok diff)
      × (apply_line_diff (lines old) diff ≡ ok (lines new))
unfolding diff_to_line_diff apply_line_diff
apply-diff grouped_ops old new script b = elim (Bool-cases (text_eq old new)) [
  | inl same ↦
      let e : old ≡ new = (text_eq_iff old new).0 same in
      ([], rw same, rw (← e) (apply-rest (lines old) [] (lines old) [] 0 refl refl))
  | inr other ↦
      let (hunks, made, applied) = apply-script (lines old) [] [] script refl refl b in
      (hunks, rw other made, applied)
]
