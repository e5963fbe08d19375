-- ===== src/Engine/Merge/Sides.antt =====
-- The two sides of `merge_texts` of src/engine/merge.rs against one another, and its conflicts.
use mathlib.Core.Path.{fun_ext}
use layertwine.Prelude.{
  ℕ, ◌+◌, ◌≡◌, ◌≢◌, refl, ap, sym, ◌∙◌, Bool, true, false, List, [], ◌∷◌, ◌++◌, Text, length,
  length-append, ltb, ◌==◌, ==_refl, ◌&&◌, ok, ◌>>=◌, >>=-eq-ok, arith, Bool-cases, inl, inr,
  text_eq_refl, All, ◌||◌, if◌then◌else◌,
}
use layertwine.Engine.Lines.{slice}
use layertwine.Engine.Merge.{
  ChangeRange, MergeConflict, Merge, end_of, append_unchanged, take_change, take_both,
  take_conflict, merge_loop, merge_changes, merge_start, lines_eq, lines_start_with,
}
use layertwine.Engine.Merge.Replay.{Replays, Replays-Parts, Replays-nil, Apart, Apart-tail}
use layertwine.Engine.Merge.Loop.{
  Ends, step-Ends, past, after_change, finish-done, merge_of_Ends, loop_theirs, loop_ours,
  loop_first, loop_second, loop_both,
}

lines_eq_refl : (ls : List Text) → lines_eq ls ls ≡ true
unfolding lines_eq
lines_eq_refl [] = refl
lines_eq_refl (l ∷ ls) = rw (text_eq_refl l) (lines_eq_refl ls)

take_both_same :
    (base : List Text) (m : Merge) (c : ChangeRange)
    → take_both base m c c ≡ take_change base m c (end_of c)
unfolding take_both
take_both_same base m c = rw (==_refl c.base_len, lines_eq_refl c.new_lines)

loop_same :
    (base pre olds news : List Text) (cs : List ChangeRange) (m : Merge)
    → Replays m.base_pos olds cs news
    → base ≡ pre ++ olds
    → length pre ≡ m.base_pos
    → Ends base m news (merge_loop base cs cs m)
loop_same base pre olds news [] m r e l = (
  m,
  unfold merge_loop in refl,
  finish-done base pre olds m e l ∙ ap (λ n. m.result ++ n) (sym (Replays-nil r)),
  refl,
)
loop_same base pre olds news (c ∷ cs) m r e l =
    let p = Replays-Parts r in
    let (e', l') = past base pre olds m.base_pos c cs news p e l in
    let here : ltb c.base_start c.base_start ≡ false = ground arith in
    rw (loop_both base c c cs cs m here here, take_both_same base m c)
      (step-Ends base pre olds m c cs news (merge_loop base cs cs) p e l (
        loop_same base ((pre ++ p.gap) ++ p.taken) p.rest p.after cs (after_change m p.gap c)
          p.replays e' l'))

-- Where both sides make the same changes, and these turn the base into `news`, the merge gives `news`
-- with no conflict: each change is applied once.
pub merge_same :
    (base news : List Text) (cs : List ChangeRange)
    → Replays 0 base cs news
    → merge_changes base cs cs ≡ ok (news, [])
merge_same base news cs r =
    merge_of_Ends base news cs cs (loop_same base [] base news cs merge_start r refl refl)

take_change-conflicts :
    (base : List Text) (m : Merge) (c : ChangeRange) (pos : ℕ) {m' : Merge}
    → take_change base m c pos ≡ ok m'
    → m'.conflicts ≡ m.conflicts
unfolding take_change
take_change-conflicts base m c pos h = ground arith

-- Whatever the changes cover, two sides that never begin a change at the same line end with no conflict noted.
pub loop_Apart-conflicts :
    (base : List Text) (ours theirs : List ChangeRange) (m : Merge) {m' : Merge}
    → Apart ours theirs
    → merge_loop base ours theirs m ≡ ok m'
    → m'.conflicts ≡ m.conflicts
loop_Apart-conflicts base [] [] m a h = unfold merge_loop in ground arith
loop_Apart-conflicts base [] (t ∷ theirs) m a h =
    let (m1, one, rest) =
      >>=-eq-ok (take_change base m t (end_of t)) (merge_loop base [] theirs)
        (rw (loop_theirs base t theirs m) at h) in
    loop_Apart-conflicts base [] theirs m1 tt rest ∙ take_change-conflicts base m t (end_of t) one
loop_Apart-conflicts base (o ∷ ours) [] m a h =
    let (m1, one, rest) =
      >>=-eq-ok (take_change base m o (end_of o)) (merge_loop base ours [])
        (rw (loop_ours base o ours m) at h) in
    loop_Apart-conflicts base ours [] m1 a.1 rest ∙ take_change-conflicts base m o (end_of o) one
loop_Apart-conflicts base (o ∷ ours) (t ∷ theirs) m {m'} a h =
    elim (Bool-cases (ltb o.base_start t.base_start)) [
      | inl first ↦
          let (m1, one, rest) =
            >>=-eq-ok (take_change base m o (end_of o)) (merge_loop base ours (t ∷ theirs))
              (rw (loop_first base o t ours theirs m first) at h) in
          loop_Apart-conflicts base ours (t ∷ theirs) m1 a.1 rest
          ∙ take_change-conflicts base m o (end_of o) one
      | inr later ↦
          let distinct : o.base_start ≢ t.base_start = a.0.0 in
          let second : ltb t.base_start o.base_start ≡ true = ground arith in
          let (m1, one, rest) =
            >>=-eq-ok (take_change base m t (end_of t)) (merge_loop base (o ∷ ours) theirs)
              (rw (loop_second base o t ours theirs m later second) at h) in
          loop_Apart-conflicts base (o ∷ ours) theirs m1 (Apart-tail (o ∷ ours) t theirs a) rest
          ∙ take_change-conflicts base m t (end_of t) one
    ]

swap-Apart : (ours theirs : List ChangeRange) → Apart ours theirs → Apart theirs ours
swap-Apart ours [] a = tt
swap-Apart ours (t ∷ theirs) a = (heads ours a, swap-Apart ours theirs (Apart-tail ours t theirs a))
  where
    heads :
        (os : List ChangeRange)
        → Apart os (t ∷ theirs)
        → All (λ (o : ChangeRange). t.base_start ≢ o.base_start) os
    heads [] b = tt
    heads (o ∷ os) b = (λ e. b.0.0 (sym e), heads os b.1)

loop_swap :
    (base : List Text) (ours theirs : List ChangeRange) (m : Merge)
    → Apart ours theirs
    → merge_loop base ours theirs m ≡ merge_loop base theirs ours m
loop_swap base [] [] m a = refl
loop_swap base [] (t ∷ theirs) m a =
    rw (loop_theirs base t theirs m, loop_ours base t theirs m)
      (ap (λ f. take_change base m t (end_of t) >>= f)
        (fun_ext (λ m1. loop_swap base [] theirs m1 tt)))
loop_swap base (o ∷ ours) [] m a =
    rw (loop_theirs base o ours m, loop_ours base o ours m)
      (ap (λ f. take_change base m o (end_of o) >>= f)
        (fun_ext (λ m1. loop_swap base ours [] m1 a.1)))
loop_swap base (o ∷ ours) (t ∷ theirs) m a = elim (Bool-cases (ltb o.base_start t.base_start)) [
  | inl first ↦
      let not_second : ltb t.base_start o.base_start ≡ false = ground arith in
      rw
        (
          loop_first base o t ours theirs m first,
          loop_second base t o theirs ours m not_second first,
        )
        (ap (λ f. take_change base m o (end_of o) >>= f)
          (fun_ext (λ m1. loop_swap base ours (t ∷ theirs) m1 a.1)))
  | inr later ↦
      let distinct : o.base_start ≢ t.base_start = a.0.0 in
      let second : ltb t.base_start o.base_start ≡ true = ground arith in
      rw (loop_second base o t ours theirs m later second, loop_first base t o theirs ours m second)
        (ap (λ f. take_change base m t (end_of t) >>= f)
          (fun_ext (λ m1. loop_swap base (o ∷ ours) theirs m1 (Apart-tail (o ∷ ours) t theirs a))))
]

-- Where no change of ours begins where one of theirs does, swapping the sides changes nothing: same
-- lines, same conflicts, same panic.
pub merge_swap :
    (base : List Text) (ours theirs : List ChangeRange)
    → Apart ours theirs
    → merge_changes base ours theirs ≡ merge_changes base theirs ours
unfolding merge_changes
merge_swap base ours theirs a = rw (loop_swap base ours theirs merge_start a)

-- Whatever lines the changes cover, also where they overlap: where no change of ours begins where one
-- of theirs does, a merge that succeeds reports no conflict.
merge_Apart-conflicts :
    (base : List Text) (ours theirs : List ChangeRange) {out : List Text}
    {conflicts : List MergeConflict}
    → Apart ours theirs
    → merge_changes base ours theirs ≡ ok (out, conflicts)
    → conflicts ≡ []
unfolding merge_changes
merge_Apart-conflicts base ours theirs {out} {conflicts} a h =
    let (m, runs, same) = >>=-eq-ok (merge_loop base ours theirs merge_start) _ h in
    ground (arith, loop_Apart-conflicts base ours theirs merge_start {m' = m} a runs)

-- Two changes at one line need no conflict: they are the same, or insertions one of which begins with the other.
pub agree : ChangeRange → ChangeRange → Bool
agree oc tc =
    (oc.base_len == tc.base_len) && lines_eq oc.new_lines tc.new_lines
    || ((oc.base_len == 0) && (tc.base_len == 0))
      && (lines_start_with tc.new_lines oc.new_lines || lines_start_with oc.new_lines tc.new_lines)

take_both-agree :
    (base : List Text) (m : Merge) (oc tc : ChangeRange) {m' : Merge}
    → agree oc tc ≡ true
    → take_both base m oc tc ≡ ok m'
    → m'.conflicts ≡ m.conflicts
unfolding take_both agree take_change
take_both-agree base m oc tc a h = ground arith

take_both-disagree :
    (base : List Text) (m : Merge) (oc tc : ChangeRange)
    → agree oc tc ≡ false
    → take_both base m oc tc ≡ take_conflict base m oc tc
unfolding take_both agree
take_both-disagree base m oc tc a = ground arith

take_conflict-length :
    (base : List Text) (m : Merge) (oc tc : ChangeRange) {m' : Merge}
    → take_conflict base m oc tc ≡ ok m'
    → length m'.conflicts ≡ length m.conflicts + 1
unfolding take_conflict
take_conflict-length base m oc tc {m'} h =
    let (result, copied, h1) =
      >>=-eq-ok (append_unchanged m.result base m.base_pos oc.base_start) _ h in
    let (replaced, cut, h2) =
      >>=-eq-ok (slice base oc.base_start (oc.base_start + oc.base_len)) _ h1 in
    ground (
      arith,
      length-append m.conflicts (
          record {
            start_line = length result;
            base = replaced;
            ours = oc.new_lines;
            theirs = tc.new_lines;
          }
          ∷ []),
    )

-- A merge of two changes at the same line that succeeds notes no conflict where they agree, and exactly one where they do not.
take_both-conflicts :
    (base : List Text) (m : Merge) (oc tc : ChangeRange) {m' : Merge}
    → take_both base m oc tc ≡ ok m'
    → length m'.conflicts ≡ length m.conflicts + (if agree oc tc then 0 else 1)
take_both-conflicts base m oc tc {m'} h = elim (Bool-cases (agree oc tc)) [
  | inl same ↦ rw same (omega (arith, ap length (take_both-agree base m oc tc same h)))
  | inr other ↦
      rw other (take_conflict-length base m oc tc (rw (take_both-disagree base m oc tc other) at h))
]
