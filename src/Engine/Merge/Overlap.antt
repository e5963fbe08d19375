-- ===== src/Engine/Merge/Overlap.antt =====
-- Changes that overlap and do not begin at the same line, in `merge_texts` of src/engine/merge.rs.
use mathlib.Core.List.{append-nil}
use layertwine.Prelude.{
  ℕ, ◌<◌, ◌≤◌, ◌≡◌, refl, sym, true, false, List, [], ◌∷◌, ◌++◌, Text, length, length-take, take,
  drop, take-append-drop, ltb, ok, arith,
}
use layertwine.Engine.Merge.{
  ChangeRange, Merge, end_of, append_unchanged, take_change, merge_loop, merge_changes, merge_start,
}
use layertwine.Engine.Merge.Loop.{loop_theirs, loop_first, after_change, take_change-gap}

-- The lines before `n`, and the rest.
cut : (base : List Text) (n : ℕ) → n ≤ length base → length (take n base) ≡ n
cut base n h = omega (arith, length-take n base)

-- A change behind the place reached so far is written with nothing before it.
take_change-behind :
    (base : List Text) (m : Merge) (c : ChangeRange)
    → c.base_start ≤ m.base_pos
    → take_change base m c (end_of c) ≡ ok (after_change m [] c)
unfolding take_change append_unchanged
take_change-behind base m c h =
    let none_left : ltb m.base_pos c.base_start ≡ false = ground arith in rw (none_left, append-nil)

-- Where a change of theirs begins and ends inside the lines that one change of ours replaces, and ends
-- before them, the merge reports no conflict, writes both, and goes on behind theirs: the lines from
-- there on come again, also those that ours replaced.
pub merge-overlap :
    (base : List Text) (o t : ChangeRange)
    → o.base_start < t.base_start
    → end_of t < end_of o
    → end_of o ≤ length base
    → merge_changes base (o ∷ []) (t ∷ [])
      ≡ ok (((take o.base_start base ++ o.new_lines) ++ t.new_lines) ++ drop (end_of t) base, [])
unfolding merge_changes merge_loop
merge-overlap base o t first inside fits =
    let starts : ltb o.base_start t.base_start ≡ true = ground arith in
    let more : ltb (end_of t) (length base) ≡ true = ground arith in
    let m1 = after_change merge_start (take o.base_start base) o in
    let split = sym (take-append-drop o.base_start base) in
    let size = cut base o.base_start (omega arith) in
    rw (
      loop_first base o t [] [] merge_start starts,
      take_change-gap base [] (take o.base_start base) (drop o.base_start base) merge_start o split
          refl (omega arith),
      loop_theirs base t [] m1,
      take_change-behind base m1 t (omega arith),
      more,
      append-nil,
    )
