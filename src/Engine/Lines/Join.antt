-- ===== src/Engine/Lines/Join.antt =====
-- Splitting a text into lines and joining them again, as src/engine/merge.rs does.
use layertwine.Prelude.{
  ℕ, ◌≡◌, ◌≢◌, refl, ap, ◌∙◌, Bool, true, false, List, [], ◌∷◌, ◌++◌, Text, All, arith, ◌==◌, ==_ne,
  if◌then◌else◌, Bool-cases, inl, inr, ==_iff, ◌&&◌,
}
use layertwine.Engine.Lines.{newline, carriage_return, lines, join, push_char, ends_with_newline}

-- The text has no `\r`.
abbrev pub HasNoCr : Text → Type 0
HasNoCr = All (λ c. c ≢ carriage_return)

abbrev pub newline_if : Bool → Text
newline_if true = newline ∷ []
newline_if false = []

-- A text that is not empty has a first line.
lines-cons : (c : ℕ) (s : Text) → (l : Text) × (ls : List Text) × (lines (c ∷ s) ≡ l ∷ ls)
unfolding lines
lines-cons c s = go (c == newline) s (lines s) refl refl
  where
    go :
        (b : Bool) (t : Text) (m : List Text)
        → c == newline ≡ b
        → lines s ≡ m
        → (l : Text) × (ls : List Text) × ((if b then [] ∷ m else push_char c t m) ≡ l ∷ ls)
    go true t m e f = ([], m, refl)
    go false [] m e f = (c ∷ [], [], refl)
    go false (d ∷ t) [] e f = (c ∷ [], [], refl)
    go false (d ∷ t) (l ∷ ls) e f = elim (Bool-cases ((c == carriage_return) && (d == newline))) [
      | inl dropped ↦ (l, ls, rw dropped)
      | inr kept ↦ (c ∷ l, ls, rw kept)
    ]

lines-newline : (s : Text) → lines (newline ∷ s) ≡ [] ∷ lines s
unfolding lines
lines-newline s = refl

lines-push :
    (c d : ℕ) (s l : Text) (ls : List Text)
    → c ≢ newline
    → c ≢ carriage_return
    → lines (d ∷ s) ≡ l ∷ ls
    → lines (c ∷ d ∷ s) ≡ (c ∷ l) ∷ ls
lines-push c d s l ls p q e = opened (==_ne c newline p) (==_ne c carriage_return q)
  where
    opened :
        (c == newline) ≡ false → (c == carriage_return) ≡ false → lines (c ∷ d ∷ s) ≡ (c ∷ l) ∷ ls
    opened p' q' =
        let here : lines (c ∷ d ∷ s) ≡ push_char c (d ∷ s) (lines (d ∷ s)) =
          unfold lines in rw p' in
        here ∙ rw e (unfold push_char in rw q')

join-push : (c : ℕ) (l : Text) (ls : List Text) → join ((c ∷ l) ∷ ls) ≡ c ∷ join (l ∷ ls)
unfolding join
join-push c l [] = refl
join-push c l (m ∷ ls) = refl

join-newline : (l : Text) (ls : List Text) → join ([] ∷ l ∷ ls) ≡ newline ∷ join (l ∷ ls)
unfolding join
join-newline l ls = refl

-- The lines of a text without `\r`, joined, are the text less one final newline.
pub join-lines : (s : Text) → HasNoCr s → join (lines s) ++ newline_if (ends_with_newline s) ≡ s
unfolding ends_with_newline
join-lines [] h = unfold lines join in refl
join-lines (c ∷ []) h = unfold lines join in ground arith
join-lines (c ∷ d ∷ s) h =
    let (l, ls, e) = lines-cons d s in
    let ih : join (l ∷ ls) ++ newline_if (ends_with_newline (d ∷ s)) ≡ d ∷ s =
      rw e at (join-lines (d ∷ s) h.1) in
    elim (Bool-cases (c == newline)) [
      | inl nl ↦
          let n : c ≡ newline = (==_iff c newline).0 nl in
          rw (n, lines-newline, e, join-newline) (ap (λ t. newline ∷ t) ih)
      | inr other ↦
          rw (lines-push c d s l ls (λ q. ground arith) h.0 e, join-push) (ap (λ t. c ∷ t) ih)
    ]
