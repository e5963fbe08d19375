-- ===== src/Engine/Merge/Extract.antt =====
-- The changes that `extract_changes_from_line_diff` of src/engine/merge.rs reads off a diff.
use mathlib.Core.List.{append_assoc, append-nil}
use layertwine.Prelude.{
  ℕ, ◌+◌, ◌-◌, ◌%◌, ◌^◌, ◌<◌, ◌≡◌, refl, ap, sym, ◌∙◌, false, List, [], ◌∷◌, ◌++◌, Option, none,
  some, Text, length, length-append, ok, >>=-eq-ok, arith, Bool-cases, inl, inr, text_eq,
  text_eq_iff,
}
use layertwine.Core.LineDiff.{DiffOp, equal, delete, insert, replace, Hunk, LineDiff}
use layertwine.Engine.Lines.{lines}
use layertwine.Engine.Diff.{
  DiffTag, TextOp, to_diff_op_of, to_diff_op, to_diff_ops, hunk_of, to_hunk, to_hunks,
  diff_to_line_diff,
}
use layertwine.Engine.Diff.Script.{OpLines, IsOp, IsGroup, nil, cons, IsScript, done, group}
use layertwine.Engine.Diff.RoundTrip.{first_op-old_from}
use layertwine.Engine.Merge.{
  ChangeRange, Pending, nothing_pending, flush_from, flush_change, extend, extract_ops, has_change,
  extract_changes,
}
use layertwine.Engine.Merge.Replay.{Replays, Replays-gap, step}

flush-append :
    (changes : List ChangeRange) (p : Pending)
    → (flush_change changes p).0 ≡ changes ++ (flush_change [] p).0
unfolding flush_change
flush-append changes p = go p.start p
  where
    go :
        (s : Option ℕ) (q : Pending) → (flush_from s changes q).0 ≡ changes ++ (flush_from s [] q).0
    go none q = sym (append-nil changes)
    go (some s) q = refl

flush-state :
    (changes : List ChangeRange) (p : Pending) → (flush_change changes p).1 ≡ (flush_change [] p).1
unfolding flush_change
flush-state changes p = go p.start p
  where
    go : (s : Option ℕ) (q : Pending) → (flush_from s changes q).1 ≡ (flush_from s [] q).1
    go none q = refl
    go (some s) q = refl

extract_ops-append :
    (cursor : ℕ) (ops : List DiffOp) (changes : List ChangeRange) (p : Pending)
    → extract_ops cursor ops changes p ≡ changes ++ extract_ops cursor ops [] p
unfolding extract_ops
extract_ops-append cursor [] changes p = flush-append changes p
extract_ops-append cursor (equal count ∷ ops) changes p =
    let q = (flush_change [] p).1 in
    rw (flush-state changes p, flush-append changes p)
      (extract_ops-append (cursor + count) ops (changes ++ (flush_change [] p).0) q
        ∙ append_assoc changes (flush_change [] p).0 _
        ∙ ap (λ l. changes ++ l)
            (sym (extract_ops-append (cursor + count) ops (flush_change [] p).0 q)))
extract_ops-append cursor (insert at ls ∷ ops) changes p =
    extract_ops-append cursor ops changes (extend p cursor 0 ls)
extract_ops-append cursor (delete at count ∷ ops) changes p =
    extract_ops-append (cursor + count) ops changes (extend p cursor count [])
extract_ops-append cursor (replace at count to ls ∷ ops) changes p =
    extract_ops-append (cursor + count) ops changes (extend p cursor count ls)

-- What is pending at line `i` of the base: nothing, or a change from line `s` on, which has taken the
-- lines `taken` and put `put` in their place.
data At (p : Pending) (s i : ℕ) (taken put : List Text) : Type 0 where
  idle : p ≡ nothing_pending → s ≡ i → taken ≡ [] → put ≡ [] → At p s i taken put
  busy :
      p.start ≡ some s
      → p.len ≡ length taken
      → p.new_lines ≡ put
      → i ≡ s + length taken
      → At p s i taken put

extend-At :
    (p : Pending) (s i : ℕ) (taken put a b : List Text)
    → At p s i taken put
    → At (extend p i (length a) b) s (i + length a) (taken ++ a) (put ++ b)
unfolding extend
extend-At p s i taken put a b (idle e f g h) = rw (e, f, g, h) (busy refl (omega arith) refl refl)
extend-At p s i taken put a b (busy e f g h) =
    busy (rw e refl) (omega (arith, length-append taken a)) (rw g refl)
      (omega (arith, length-append taken a))

-- After an `Equal` nothing is pending, and what was is a change.
flush-Replays :
    (p : Pending) (s i : ℕ) (taken put : List Text) {olds news : List Text} {cs : List ChangeRange}
    → At p s i taken put
    → Replays i olds cs news
    → Replays s (taken ++ olds) ((flush_change [] p).0 ++ cs) (put ++ news)
unfolding flush_change
flush-Replays p s i taken put (idle e f g h) r = rw (e, f, g, h) r
flush-Replays p s i taken put {olds} {news} {cs} (busy e f g h) r = rw e (
    let c : ChangeRange = record { base_start = s; base_len = p.len; new_lines = p.new_lines } in
    let r' : Replays (s + p.len) olds cs news = rw (f, ← h) r in
    rw (← g) (step {pos = s} {c = c} [] taken olds (omega arith) f r'))

flush_clears :
    (p : Pending) (s i : ℕ) (taken put : List Text)
    → At p s i taken put
    → (flush_change [] p).1 ≡ nothing_pending
unfolding flush_change
flush_clears p s i taken put (idle e f g h) = rw e
flush_clears p s i taken put (busy e f g h) = rw e

-- A group's changes, in front of `more`.
abbrev GroupReplays :
    (cursor : ℕ)
    → List DiffOp
    → Pending
    → ℕ
    → (olds : List Text) → List ChangeRange
    → (news : List Text) → Type 0
GroupReplays cursor ops p s olds more news =
    Replays s olds (extract_ops cursor ops [] p ++ more) news

step_of :
    (t : DiffTag) (op : TextOp) (ops : List DiffOp) (p : Pending) (i j s : ℕ)
    (a b taken put olds news : List Text) (more : List ChangeRange)
    → IsOp op i j a b
    → OpLines t op a b
    → length a < 2 ^ 32
    → At p s i taken put
    → ((q : Pending) (s' : ℕ) (taken' put' : List Text)
        → At q s' (i + length a) taken' put'
        → GroupReplays (i + length a) ops q s' (taken' ++ olds) more (put' ++ news))
    → GroupReplays i (to_diff_op_of t op ∷ ops) p s (taken ++ (a ++ olds)) more (put ++ (b ++ news))
unfolding to_diff_op_of extract_ops
step_of DiffTag.equal op ops p i j s a b taken put olds news more h body small at next =
    let width : (op.old_to - op.old_from) % 2 ^ 32 ≡ length a =
      omega (arith, h.old_from, h.old_to) in
    let r = next nothing_pending (i + length a) [] [] (idle refl refl refl refl) in
    let here = flush-Replays p s i taken put at (Replays-gap a refl r) in
    rw
      (
        width,
        body,
        flush_clears p s i taken put at,
        extract_ops-append (i + length a) ops (flush_change [] p).0 nothing_pending,
        append_assoc (flush_change [] p).0 (extract_ops (i + length a) ops [] nothing_pending) more,
      )
      here
step_of DiffTag.delete op ops p i j s a b taken put olds news more h body small at next =
    let width : (op.old_to - op.old_from) % 2 ^ 32 ≡ length a =
      omega (arith, h.old_from, h.old_to) in
    let r =
      next (extend p i (length a) []) s (taken ++ a) (put ++ [])
        (extend-At p s i taken put a [] at) in
    rw (width, body) (rw (append_assoc taken a olds, append-nil put) at r)
step_of DiffTag.insert op ops p i j s a b taken put olds news more h body small at next =
    let r =
      next (extend p i (length a) b) s (taken ++ a) (put ++ b) (extend-At p s i taken put a b at) in
    let none_taken : length a ≡ 0 = rw body.0 refl in
    let here : i + 0 ≡ i = omega arith in
    rw (← body.1) (rw (append_assoc taken a olds, append_assoc put b news, none_taken, here) at r)
step_of DiffTag.replace op ops p i j s a b taken put olds news more h body small at next =
    let width : (op.old_to - op.old_from) % 2 ^ 32 ≡ length a =
      omega (arith, h.old_from, h.old_to) in
    let r =
      next (extend p i (length a) b) s (taken ++ a) (put ++ b) (extend-At p s i taken put a b at) in
    rw (width, ← body) (rw (append_assoc taken a olds, append_assoc put b news) at r)

group-Replays :
    {ops : List TextOp} {i j : ℕ} {o n : List Text} (p : Pending) (s : ℕ)
    (taken put olds news : List Text) (more : List ChangeRange)
    → IsGroup ops i j o n
    → length o < 2 ^ 32
    → At p s i taken put
    → Replays (i + length o) olds more news
    → GroupReplays i (to_diff_ops ops) p s (taken ++ (o ++ olds)) more (put ++ (n ++ news))
unfolding to_diff_ops to_diff_op
group-Replays p s taken put olds news more (nil {i}) small at r =
    let here : i + 0 ≡ i = omega arith in
    unfold extract_ops in flush-Replays p s i taken put at (rw here at r)
group-Replays p s taken put olds news more (cons {op} {ops} {i} {j} {o} {n} {o'} {n'} h rest) small
      at r =
    let size = length-append o o' in
    let place : i + length (o ++ o') ≡ (i + length o) + length o' = omega arith in
    rw (append_assoc o o' olds, append_assoc n n' news)
      (step_of op.tag op (to_diff_ops ops) p i j s o n taken put (o' ++ olds) (n' ++ news) more h
        h.body (omega arith) at
        (λ q s' taken' put' at'.
          group-Replays q s' taken' put' olds news more rest (omega arith) at' (rw place at r)))

extract_changes-append :
    (hunks : List Hunk) (changes : List ChangeRange)
    → extract_changes hunks changes ≡ changes ++ extract_changes hunks []
unfolding extract_changes
extract_changes-append [] changes = sym (append-nil changes)
extract_changes-append (hunk ∷ hunks) changes = elim (Bool-cases (has_change hunk.ops)) [
  | inl yes_change ↦
      let new = extract_ops (hunk.old_start - 1) hunk.ops [] nothing_pending in
      rw (yes_change, extract_ops-append (hunk.old_start - 1) hunk.ops changes nothing_pending)
        (extract_changes-append hunks (changes ++ new)
          ∙ append_assoc changes new _
          ∙ ap (λ l. changes ++ l) (sym (extract_changes-append hunks new)))
  | inr no_change ↦ rw no_change (extract_changes-append hunks changes)
]

-- The code passes over a hunk that changes nothing; its lines are the same on both sides.
no_change-eq :
    {ops : List TextOp} {i j : ℕ} {o n : List Text}
    → IsGroup ops i j o n
    → has_change (to_diff_ops ops) ≡ false
    → n ≡ o
unfolding has_change to_diff_ops to_diff_op to_diff_op_of
no_change-eq nil e = refl
no_change-eq (cons {op} {ops} {o} {n} {o'} {n'} h rest) e = go op.tag h.body e (no_change-eq rest)
  where
    go :
        (t : DiffTag)
        → OpLines t op o n
        → has_change (to_diff_op_of t op ∷ to_diff_ops ops) ≡ false
        → (has_change (to_diff_ops ops) ≡ false → n' ≡ o')
        → n ++ n' ≡ o ++ o'
    go DiffTag.equal body f ih = rw (body, ih f)
    go DiffTag.delete body f ih = cc
    go DiffTag.insert body f ih = cc
    go DiffTag.replace body f ih = cc

hunk-Replays :
    (op : TextOp) (ops : List TextOp) (hunks : List Hunk) {i j : ℕ} {o n : List Text}
    (gap olds news : List Text)
    → IsGroup (op ∷ ops) (i + length gap) j o n
    → i + length gap + length o + 1 < 2 ^ 32
    → Replays (i + length gap + length o) olds (extract_changes hunks []) news
    → Replays i
        (gap ++ (o ++ olds))
        (extract_changes (hunk_of op ops ∷ hunks) [])
        (gap ++ (n ++ news))
unfolding extract_changes hunk_of
hunk-Replays op ops hunks {i} {j} {o} {n} gap olds news g small r =
    let first = first_op-old_from op ops g in
    let start : (op.old_from % 2 ^ 32 + 1) % 2 ^ 32 - 1 ≡ i + length gap = omega arith in
    elim (Bool-cases (has_change (to_diff_ops (op ∷ ops)))) [
      | inl changed ↦
          let added = extract_ops (i + length gap) (to_diff_ops (op ∷ ops)) [] nothing_pending in
          rw (changed, start, extract_changes-append hunks added)
            (Replays-gap gap refl (
              group-Replays nothing_pending (i + length gap) [] [] olds news
                (extract_changes hunks []) g (omega arith) (idle refl refl refl refl) r))
      | inr same ↦ rw (same, no_change-eq g same) (Replays-gap gap refl (Replays-gap o refl r))
    ]

pub script-Replays :
    {groups : List (List TextOp)} {i j : ℕ} {olds news : List Text} (hunks : List Hunk)
    → IsScript groups i j olds news
    → to_hunks groups ≡ ok hunks
    → i + length olds + 1 < 2 ^ 32
    → Replays i olds (extract_changes hunks []) news
unfolding to_hunks to_hunk extract_changes
script-Replays hunks done e small =
    let none_made : hunks ≡ [] = cc in rw (none_made, extract_changes) Replays.done
script-Replays hunks (group {op} {ops} {groups} {i} {j} gap {o} {n} {o'} {n'} g rest) e small =
    let (rest_hunks, made, whole) =
      >>=-eq-ok (to_hunks groups) (λ hs. ok (hunk_of op ops ∷ hs)) e in
    let these : hunks ≡ hunk_of op ops ∷ rest_hunks = cc in
    let size : length (gap ++ (o ++ o')) ≡ length gap + (length o + length o') =
      omega (arith, length-append gap (o ++ o'), length-append o o') in
    let later = script-Replays rest_hunks rest made (omega arith) in
    rw these (hunk-Replays op ops rest_hunks gap o' n' g (omega arith) later)

-- Where the crate's operations turn the lines of `base` into those of `new`, and `base` has fewer than
-- 2^32 - 1 lines, the changes read off the diff of the two texts turn the lines of `base` into those of `new`.
pub extract-Replays :
    (grouped_ops : Text → Text → List (List TextOp)) (base new : Text) (diff : LineDiff)
    → IsScript (grouped_ops base new) 0 0 (lines base) (lines new)
    → length (lines base) + 1 < 2 ^ 32
    → diff_to_line_diff grouped_ops base new ≡ ok diff
    → Replays 0 (lines base) (extract_changes diff []) (lines new)
unfolding diff_to_line_diff extract_changes
extract-Replays grouped_ops base new diff script small made = elim (Bool-cases (text_eq base new)) [
  | inl same ↦
      let e : base ≡ new = (text_eq_iff base new).0 same in
      let empty : diff ≡ [] = ground arith in rw (empty, extract_changes, ← e) Replays.done
  | inr other ↦ script-Replays diff script (rw other at made) (omega arith)
]
