-- ===== src/Core/Sources.antt =====
-- `SourceType::matches_glob` of src/core/types.rs: which sources a pattern of a query takes in.
pub mod Patterns
use layertwine.Prelude.{
  ℕ, Bool, true, false, ◌&&◌, List, [], ◌∷◌, Option, none, some, Text, codes, text_eq, get_last?,
  ◌==◌, if◌then◌else◌,
}

-- `text.starts_with(prefix)`.
unfoldable pub starts_with : Text → Text → Bool
starts_with text [] = true
starts_with [] (p ∷ prefix) = false
starts_with (c ∷ text) (p ∷ prefix) = (c == p) && starts_with text prefix

abbrev pub after_char : ℕ → Option Text → Option Text
after_char c none = none
after_char c (some stem) = some (c ∷ stem)

-- `text.strip_suffix(suffix)`.
unfoldable pub strip_suffix : Text → Text → Option Text
strip_suffix [] suffix = if text_eq [] suffix then some [] else none
strip_suffix (c ∷ text) suffix =
    let rest = after_char c (strip_suffix text suffix) in
    if text_eq (c ∷ text) suffix then some [] else rest

abbrev pub ends_with_char : Text → ℕ → Bool
ends_with_char text c = is_char (get_last? text)
  where
    is_char : Option ℕ → Bool
    is_char none = false
    is_char (some d) = d == c

-- The last two tests: a final `*`, and a plain prefix.
abbrev pub match_star : Text → Text → Option Text → Bool
match_star source pattern none = starts_with source pattern
match_star source pattern (some stripped) = starts_with source stripped

abbrev pub match_depth : Text → Text → Option Text → Bool
match_depth source pattern none = match_star source pattern (strip_suffix pattern (codes "*"))
match_depth source pattern (some prefix) = starts_with source prefix

unfoldable pub matches_glob : Text → Text → Bool
matches_glob source pattern =
    if text_eq pattern source
    then true
    else if ends_with_char pattern 47 && starts_with source pattern
    then true
    else match_depth source pattern (strip_suffix pattern (codes "/**"))
