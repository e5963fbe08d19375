-- ===== src/Engine/Merge/Loop.antt =====
-- The loop of `merge_texts` of src/engine/merge.rs, against the replay of the changes of both sides.
use mathlib.Core.List.{append_assoc, append-nil}
use layertwine.Prelude.{
  ℕ, suc, ◌+◌, ◌≡◌, ◌≢◌, refl, ap, sym, ◌∙◌, true, false, List, [], ◌∷◌, ◌++◌, Text, length,
  length-append, min, drop, ltb, if◌then◌else◌, Result, ok, ◌>>=◌, arith, Bool-cases, inl, inr,
}
use layertwine.Engine.Diff.RoundTrip.{slice-middle, drop-length, shift}
use layertwine.Engine.Merge.{
  ChangeRange, Merge, end_of, append_unchanged, take_change, take_both, merge_loop, merge_changes,
  merge_start,
}
use layertwine.Engine.Merge.Replay.{
  Replays, Parts, Replays-Parts, Replays-nil, Apart, Apart-tail, weave, weave-nil,
}

-- The three steps of the loop where both sides have a change left.
module _ (base : List Text) (o t : ChangeRange) (ours theirs : List ChangeRange) (m : Merge) where
  pub loop_first :
      ltb o.base_start t.base_start ≡ true
      → merge_loop base (o ∷ ours) (t ∷ theirs) m
        ≡ (take_change base m o (end_of o) >>= merge_loop base ours (t ∷ theirs))
  unfolding merge_loop
  loop_first h = rw (h, merge_loop)

  pub loop_second :
      ltb o.base_start t.base_start ≡ false
      → ltb t.base_start o.base_start ≡ true
      → merge_loop base (o ∷ ours) (t ∷ theirs) m
        ≡ (take_change base m t (end_of t) >>= merge_loop base (o ∷ ours) theirs)
  unfolding merge_loop
  loop_second h k = rw (h, k, merge_loop)

  pub loop_both :
      ltb o.base_start t.base_start ≡ false
      → ltb t.base_start o.base_start ≡ false
      → merge_loop base (o ∷ ours) (t ∷ theirs) m
        ≡ (take_both base m o t >>= merge_loop base ours theirs)
  unfolding merge_loop
  loop_both h k = rw (h, k, merge_loop)

-- The steps where one side has none left.
pub loop_theirs :
    (base : List Text) (t : ChangeRange) (theirs : List ChangeRange) (m : Merge)
    → merge_loop base [] (t ∷ theirs) m
      ≡ (take_change base m t (end_of t) >>= merge_loop base [] theirs)
unfolding merge_loop
loop_theirs base t theirs m = refl

pub loop_ours :
    (base : List Text) (o : ChangeRange) (ours : List ChangeRange) (m : Merge)
    → merge_loop base (o ∷ ours) [] m
      ≡ (take_change base m o (end_of o) >>= merge_loop base ours [])
unfolding merge_loop
loop_ours base o ours m = refl

append_unchanged-gap :
    (result base pre gap post : List Text) (from to : ℕ)
    → base ≡ pre ++ (gap ++ post)
    → length pre ≡ from
    → to ≡ from + length gap
    → append_unchanged result base from to ≡ ok (result ++ gap)
unfolding append_unchanged
append_unchanged-gap result base pre [] post from to e l t =
    let same : ltb from to ≡ false = ground arith in rw (same, append-nil)
append_unchanged-gap result base pre (x ∷ gap) post from to e l t =
    let more : ltb from to ≡ true = ground arith in
    let size : length base ≡ from + (suc (length gap) + length post) =
      omega
        (arith, ap length e, length-append pre ((x ∷ gap) ++ post), length-append (x ∷ gap) post) in
    let cut : min to (length base) ≡ to = omega arith in
    rw (more, cut, slice-middle base pre (x ∷ gap) post from to e l t)

-- The state after a change whose gap is copied.
abbrev pub after_change : Merge → List Text → ChangeRange → Merge
after_change m gap c = record m { result = (m.result ++ gap) ++ c.new_lines; base_pos = end_of c }

pub take_change-gap :
    (base pre gap post : List Text) (m : Merge) (c : ChangeRange)
    → base ≡ pre ++ (gap ++ post)
    → length pre ≡ m.base_pos
    → c.base_start ≡ m.base_pos + length gap
    → take_change base m c (end_of c) ≡ ok (after_change m gap c)
unfolding take_change
take_change-gap base pre gap post m c e l s =
    rw (append_unchanged-gap m.result base pre gap post m.base_pos c.base_start e l s)

-- What `merge_changes` makes of the loop's last state.
pub finish : List Text → Merge → List Text
finish base m = if ltb m.base_pos (length base) then m.result ++ drop m.base_pos base else m.result

pub finish-done :
    (base pre olds : List Text) (m : Merge)
    → base ≡ pre ++ olds
    → length pre ≡ m.base_pos
    → finish base m ≡ m.result ++ olds
unfolding finish
finish-done base pre [] m e l =
    let size : length base ≡ m.base_pos = omega (arith, ap length e, ap length (append-nil pre)) in
    let ended : ltb m.base_pos (length base) ≡ false = ground arith in rw (ended, append-nil)
finish-done base pre (x ∷ olds) m e l =
    let size : length base ≡ m.base_pos + suc (length olds) =
      omega (arith, ap length e, length-append pre (x ∷ olds)) in
    let more : ltb m.base_pos (length base) ≡ true = ground arith in
    rw (more, drop-length pre (x ∷ olds) base m.base_pos e l)

-- `loop` ends with `news` behind what was there, and with no new conflict.
abbrev pub Ends : List Text → Merge → List Text → Result Merge → Type 0
Ends base m news loop =
    (m' : Merge) × (loop ≡ ok m')
    × (finish base m' ≡ m.result ++ news)
    × (m'.conflicts ≡ m.conflicts)

-- One change of either side, and the loop from there.
pub step-Ends :
    (base pre olds : List Text) (m : Merge) (c : ChangeRange) (cs : List ChangeRange)
    (news : List Text) (loop : Merge → Result Merge) (p : Parts m.base_pos olds c cs news)
    → base ≡ pre ++ olds
    → length pre ≡ m.base_pos
    → Ends base (after_change m p.gap c) p.after (loop (after_change m p.gap c))
    → Ends base m news (take_change base m c (end_of c) >>= loop)
step-Ends base pre olds m c cs news loop p e l (m', runs, ends, kept) =
    let e' : base ≡ pre ++ (p.gap ++ (p.taken ++ p.rest)) = rw p.olds_eq at e in
    (
      m',
      rw (take_change-gap base pre p.gap (p.taken ++ p.rest) m c e' l p.start) runs,
      ends ∙ rw p.news_eq (simp append_assoc),
      kept,
    )

-- Where the rest of the base stands after the change.
pub past :
    (base pre olds : List Text) (pos : ℕ) (c : ChangeRange) (cs : List ChangeRange)
    (news : List Text) (p : Parts pos olds c cs news)
    → base ≡ pre ++ olds
    → length pre ≡ pos
    → (base ≡ ((pre ++ p.gap) ++ p.taken) ++ p.rest)
      × (length ((pre ++ p.gap) ++ p.taken) ≡ end_of c)
past base pre olds pos c cs news p e l =
    let e' : base ≡ pre ++ (p.gap ++ (p.taken ++ p.rest)) = rw p.olds_eq at e in
    let (e1, l1) = shift base pre p.gap (p.taken ++ p.rest) pos e' l in
    let (e2, l2) = shift base (pre ++ p.gap) p.taken p.rest (pos + length p.gap) e1 l1 in
    (e2, omega (arith, p.start, p.len, l2))

loop-Replays :
    (base pre olds news : List Text) (ours theirs : List ChangeRange) (m : Merge)
    → Apart ours theirs
    → Replays m.base_pos olds (weave ours theirs) news
    → base ≡ pre ++ olds
    → length pre ≡ m.base_pos
    → Ends base m news (merge_loop base ours theirs m)
unfolding weave
loop-Replays base pre olds news [] [] m a r e l = (
  m,
  unfold merge_loop in refl,
  finish-done base pre olds m e l ∙ ap (λ n. m.result ++ n) (sym (Replays-nil r)),
  refl,
)
loop-Replays base pre olds news [] (t ∷ theirs) m a r e l =
    let p = Replays-Parts r in
    let (e', l') = past base pre olds m.base_pos t theirs news p e l in
    rw (loop_theirs base t theirs m) (
      step-Ends base pre olds m t theirs news (merge_loop base [] theirs) p e l (
        loop-Replays base ((pre ++ p.gap) ++ p.taken) p.rest p.after [] theirs
          (after_change m p.gap t) tt p.replays e' l'))
loop-Replays base pre olds news (o ∷ ours) [] m a r e l =
    let p = Replays-Parts r in
    let (e', l') = past base pre olds m.base_pos o ours news p e l in
    rw (loop_ours base o ours m) (
      step-Ends base pre olds m o ours news (merge_loop base ours []) p e l (
        loop-Replays base ((pre ++ p.gap) ++ p.taken) p.rest p.after ours []
          (after_change m p.gap o) a.1 (rw (weave-nil ours) p.replays) e' l'))
loop-Replays base pre olds news (o ∷ ours) (t ∷ theirs) m a r e l =
    elim (Bool-cases (ltb o.base_start t.base_start)) [
      | inl first ↦
          let r' : Replays m.base_pos olds (o ∷ weave ours (t ∷ theirs)) news =
            rw (first, weave) at r in
          let p = Replays-Parts r' in
          let (e', l') = past base pre olds m.base_pos o (weave ours (t ∷ theirs)) news p e l in
          rw (loop_first base o t ours theirs m first) (
            step-Ends base pre olds m o (weave ours (t ∷ theirs)) news
              (merge_loop base ours (t ∷ theirs)) p e l
              (loop-Replays base ((pre ++ p.gap) ++ p.taken) p.rest p.after ours (t ∷ theirs)
                (after_change m p.gap o) a.1 p.replays e' l'))
      | inr later ↦
          let r' : Replays m.base_pos olds (t ∷ weave (o ∷ ours) theirs) news =
            rw (later, weave) at r in
          let p = Replays-Parts r' in
          let (e', l') = past base pre olds m.base_pos t (weave (o ∷ ours) theirs) news p e l in
          let distinct : o.base_start ≢ t.base_start = a.0.0 in
          let second : ltb t.base_start o.base_start ≡ true = ground arith in
          rw (loop_second base o t ours theirs m later second) (
            step-Ends base pre olds m t (weave (o ∷ ours) theirs) news
              (merge_loop base (o ∷ ours) theirs) p e l
              (loop-Replays base ((pre ++ p.gap) ++ p.taken) p.rest p.after (o ∷ ours) theirs
                (after_change m p.gap t) (Apart-tail (o ∷ ours) t theirs a) p.replays e' l'))
    ]

pub merge_of_Ends :
    (base news : List Text) (ours theirs : List ChangeRange)
    → Ends base merge_start news (merge_loop base ours theirs merge_start)
    → merge_changes base ours theirs ≡ ok (news, [])
unfolding merge_changes finish
merge_of_Ends base news ours theirs (m, runs, ends, kept) = rw runs (ap ok (cc (ends, kept)))

-- Where no change of ours begins where one of theirs does, and the changes of both sides, by their
-- starts, turn the base into `news` one behind the other, the merge succeeds, gives `news`, and reports no conflict.
pub merge-Apart :
    (base news : List Text) (ours theirs : List ChangeRange)
    → Apart ours theirs
    → Replays 0 base (weave ours theirs) news
    → merge_changes base ours theirs ≡ ok (news, [])
merge-Apart base news ours theirs a r =
    merge_of_Ends base news ours theirs
      (loop-Replays base [] base news ours theirs merge_start a r refl refl)
