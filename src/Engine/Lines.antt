-- ===== src/Engine/Lines.antt =====
-- What the engine uses of `str`: `lines`, `join("\n")`, `ends_with('\n')`, `starts_with`, and checked slices.
pub mod Join
use layertwine.Prelude.{
  ℕ, zero, suc, ◌+◌, ◌-◌, ◌≡◌, refl, ap, Bool, true, false, ◌&&◌, List, [], ◌∷◌, ◌++◌, Text, length,
  take, drop, leb, ◌==◌, if◌then◌else◌, text_eq, arith, Result, ok, err, Error, ◌≤◌, ==_ne, ◌≢◌,
  All,
}

abbrev pub newline : ℕ
newline = 10

abbrev pub carriage_return : ℕ
carriage_return = 13

-- Puts one character before the text `s`, whose lines are known. A `\r` just before a `\n` is dropped.
unfoldable pub push_char : ℕ → Text → List Text → List Text
push_char c [] rest = (c ∷ []) ∷ []
push_char c (d ∷ s) [] = (c ∷ []) ∷ []
push_char c (d ∷ s) (l ∷ ls) =
    if (c == carriage_return) && (d == newline) then l ∷ ls else (c ∷ l) ∷ ls

unfoldable pub lines : Text → List Text
unfolding push_char
lines [] = []
lines (c ∷ s) = if c == newline then [] ∷ lines s else push_char c s (lines s)

unfoldable pub join : List Text → Text
join [] = []
join (l ∷ []) = l
join (l ∷ m ∷ ls) = l ++ (newline ∷ join (m ∷ ls))

unfoldable pub ends_with_newline : Text → Bool
ends_with_newline [] = false
ends_with_newline (c ∷ []) = c == newline
ends_with_newline (c ∷ d ∷ s) = ends_with_newline (d ∷ s)

abbrev pub is_empty_text : Text → Bool
is_empty_text [] = true
is_empty_text (c ∷ s) = false

-- `xs[from..to]`, which panics unless `from <= to <= xs.len()`.
unfoldable pub slice {ℓ} : {A : Type ℓ} → List A → ℕ → ℕ → Result (List A)
slice xs from to =
    if leb from to && leb to (length xs)
    then ok (take (to - from) (drop from xs))
    else err Error.panic
