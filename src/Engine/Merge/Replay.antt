-- ===== src/Engine/Merge/Replay.antt =====
-- What it means for a list of changes to turn the lines of a base into other lines: each change
-- keeps the lines before it, drops the lines it covers, and puts its own lines there.
use mathlib.Core.List.{append_assoc}
use layertwine.Prelude.{
  ℕ, ◌+◌, ◌≡◌, ◌≢◌, List, [], ◌∷◌, ◌++◌, Text, length, length-append, ltb, true, false, All, arith,
  refl,
}
use layertwine.Engine.Merge.{ChangeRange, end_of}

-- `pos` is the line of the base at which `olds` begins.
pub data Replays : ℕ → List Text → List ChangeRange → List Text → Type 0 where
  done : {pos : ℕ} {olds : List Text} → Replays pos olds [] olds
  step :
      {pos : ℕ} {c : ChangeRange} {cs : List ChangeRange} {news : List Text}
      (gap taken rest : List Text)
      → c.base_start ≡ pos + length gap
      → c.base_len ≡ length taken
      → Replays (end_of c) rest cs news
      → Replays pos (gap ++ (taken ++ rest)) (c ∷ cs) (gap ++ (c.new_lines ++ news))

-- No change of one side begins where a change of the other does.
abbrev pub Apart : List ChangeRange → List ChangeRange → Type 0
Apart ours theirs = All (λ o. All (λ (t : ChangeRange). o.base_start ≢ t.base_start) theirs) ours

-- Both lists of changes, by their starts.
unfoldable pub weave : List ChangeRange → List ChangeRange → List ChangeRange
weave [] theirs = theirs
weave (o ∷ ours) [] = o ∷ ours
weave (o ∷ ours) (t ∷ theirs) = elim (ltb o.base_start t.base_start) [
  | true ↦ o ∷ weave ours (t ∷ theirs)
  | false ↦ t ∷ weave (o ∷ ours) theirs
]

pub weave-nil : (ours : List ChangeRange) → weave ours [] ≡ ours
unfolding weave
weave-nil [] = refl
weave-nil (o ∷ ours) = refl

pub Apart-tail :
    (ours : List ChangeRange) (t : ChangeRange) (theirs : List ChangeRange)
    → Apart ours (t ∷ theirs)
    → Apart ours theirs
Apart-tail [] t theirs h = tt
Apart-tail (o ∷ ours) t theirs h = (h.0.1, Apart-tail ours t theirs h.1)

-- Unchanged lines before a replay belong to it.
pub Replays-gap :
    {pos start : ℕ} (gap : List Text) {olds news : List Text} {cs : List ChangeRange}
    → start ≡ pos + length gap
    → Replays start olds cs news
    → Replays pos (gap ++ olds) cs (gap ++ news)
Replays-gap gap e done = done
Replays-gap {pos} gap e (step {c} {cs} {news} more taken rest s l r) =
    let at : c.base_start ≡ pos + length (gap ++ more) = omega (arith, length-append gap more) in
    let whole = step {pos = pos} {c = c} (gap ++ more) taken rest at l r in
    rw (append_assoc gap more (taken ++ rest), append_assoc gap more (c.new_lines ++ news)) at whole

-- The parts of a replay that begins with a change.
pub record Parts (pos : ℕ) (olds : List Text) (c : ChangeRange) (cs : List ChangeRange)
    (news : List Text) : Type 0 where
  pub gap : List Text
  pub taken : List Text
  pub rest : List Text
  pub after : List Text
  pub olds_eq : olds ≡ gap ++ (taken ++ rest)
  pub news_eq : news ≡ gap ++ (c.new_lines ++ after)
  pub start : c.base_start ≡ pos + length gap
  pub len : c.base_len ≡ length taken
  pub replays : Replays (end_of c) rest cs after

pub Replays-Parts :
    {pos : ℕ} {olds news : List Text} {c : ChangeRange} {cs : List ChangeRange}
    → Replays pos olds (c ∷ cs) news
    → Parts pos olds c cs news
Replays-Parts (step {news} gap taken rest s l r) = record {
  gap = gap;
  taken = taken;
  rest = rest;
  after = news;
  olds_eq = refl;
  news_eq = refl;
  start = s;
  len = l;
  replays = r;
}

pub Replays-nil : {pos : ℕ} {olds news : List Text} → Replays pos olds [] news → news ≡ olds
Replays-nil done = refl
