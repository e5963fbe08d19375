-- ===== src/Core/Sources/Patterns.antt =====
-- What the patterns of `SourceType::matches_glob` of src/core/types.rs take in.
use layertwine.Prelude.{
  ◌≡◌, ◌≢◌, ◌↔◌, ◌⊎◌, ℕ, refl, sym, ap, subst, ◌∙◌, true, [], ◌∷◌, ◌++◌, some, Text, codes, text_eq,
  text_eq_iff, text_eq_refl, length, length-append, ◌==◌, ==_iff, Option, none, get_last?,
  Bool-cases, inl, inr, arith,
}
use layertwine.Core.Sources.{starts_with, strip_suffix, after_char, matches_glob}
use layertwine.Core.Partition.History.{get_last?-append}
use mathlib.Core.List.{append_assoc, append-nil}

strip_suffix-append : (stem suffix : Text) → strip_suffix (stem ++ suffix) suffix ≡ some stem
unfolding strip_suffix
strip_suffix-append [] [] = refl
strip_suffix-append [] (s ∷ suffix) = rw (text_eq_refl (s ∷ suffix)) refl
strip_suffix-append (c ∷ stem) suffix = elim (Bool-cases (text_eq (c ∷ (stem ++ suffix)) suffix)) [
  | inl same ↦
      let e = ap length ((text_eq_iff (c ∷ (stem ++ suffix)) suffix).0 same) in
      let size = length-append stem suffix in absurd (omega arith)
  | inr other ↦ rw (other, strip_suffix-append stem suffix) refl
]

starts_with-append : (stem rest : Text) → starts_with (stem ++ rest) stem ≡ true
unfolding starts_with
starts_with-append [] rest = refl
starts_with-append (c ∷ stem) rest = ground (arith, starts_with-append stem rest)

starts_with_refl : (text : Text) → starts_with text text ≡ true
starts_with_refl text =
    subst (λ t. starts_with t text ≡ true) (append-nil text) (starts_with-append text [])

-- `starts_with` says whether a text is the prefix and a rest.
starts_with_iff :
    (text prefix : Text)
    → (starts_with text prefix ≡ true) ↔ ((rest : Text) × (text ≡ prefix ++ rest))
unfolding starts_with
starts_with_iff text prefix =
    (rest_of text prefix, λ (rest, e). (rw e (starts_with-append prefix rest)))
  where
    rest_of :
        (text prefix : Text)
        → starts_with text prefix ≡ true
        → (rest : Text) × (text ≡ prefix ++ rest)
    rest_of text [] h = (text, refl)
    rest_of [] (p ∷ prefix) h = absurd (cc)
    rest_of (c ∷ text) (p ∷ prefix) h = elim (Bool-cases (c == p)) [
      | inl same ↦
          let (rest, e) = rest_of text prefix (rw same at h) in
          (rest, rw ((==_iff c p).0 same, e) refl)
      | inr other ↦ absurd (let e = rw other at h in cc)
    ]

after_char-some :
    (c : ℕ) (found : Option Text) (stem : Text)
    → after_char c found ≡ some stem
    → (shorter : Text) × (found ≡ some shorter) × (c ∷ shorter ≡ stem)
after_char-some c none stem h = absurd (cc)
after_char-some c (some shorter) stem h = (shorter, refl, cc)

strip_suffix_whole :
    (text suffix stem : Text)
    → text_eq text suffix ≡ true
    → some [] ≡ some stem
    → text ≡ stem ++ suffix
strip_suffix_whole text suffix stem same h =
    let e : [] ≡ stem = cc in rw (← e) ((text_eq_iff text suffix).0 same)

strip_suffix_stem :
    (text suffix stem : Text) → strip_suffix text suffix ≡ some stem → text ≡ stem ++ suffix
unfolding strip_suffix
strip_suffix_stem [] suffix stem h = elim (Bool-cases (text_eq [] suffix)) [
  | inl same ↦ strip_suffix_whole [] suffix stem same (rw same at h)
  | inr other ↦ absurd (let e = rw other at h in cc)
]
strip_suffix_stem (c ∷ text) suffix stem h = elim (Bool-cases (text_eq (c ∷ text) suffix)) [
  | inl same ↦ strip_suffix_whole (c ∷ text) suffix stem same (rw same at h)
  | inr other ↦
      let (shorter, found, e) = after_char-some c (strip_suffix text suffix) stem (rw other at h) in
      rw (← e) (ap (◌∷◌ c) (strip_suffix_stem text suffix shorter found))
]

-- Either a suffix is found, or the text does not end in it.
strip_suffix_cases :
    (text suffix : Text)
    → ((stem : Text) × (text ≡ stem ++ suffix))
      ⊎ ((strip_suffix text suffix ≡ none) × ((stem : Text) → text ≢ stem ++ suffix))
strip_suffix_cases text suffix = go (strip_suffix text suffix) refl
  where
    go :
        (found : Option Text)
        → strip_suffix text suffix ≡ found
        → ((stem : Text) × (text ≡ stem ++ suffix))
          ⊎ ((strip_suffix text suffix ≡ none) × ((stem : Text) → text ≢ stem ++ suffix))
    go none e = inr (
      e,
      λ stem same.
          absurd (let found = strip_suffix-append stem suffix in let e' = rw same at e in cc),
    )
    go (some stem) e = inl (stem, strip_suffix_stem text suffix stem e)

-- What a pattern asks a source to begin with: the pattern without a final `/**`, or else without a final `*`, or
-- else the whole pattern.
pub data IsStem : Text → Text → Type 0 where
  depth : (stem : Text) → IsStem (stem ++ codes "/**") stem
  star :
      (stem : Text)
      → ((shorter : Text) → stem ++ codes "*" ≢ shorter ++ codes "/**")
      → IsStem (stem ++ codes "*") stem
  plain :
      (pattern : Text)
      → ((shorter : Text) → pattern ≢ shorter ++ codes "*")
      → IsStem pattern pattern

matches_glob-depth :
    (source stem : Text) → matches_glob source (stem ++ codes "/**") ≡ starts_with source stem
unfolding matches_glob
matches_glob-depth source stem =
    let last : get_last? (stem ++ codes "/**") ≡ some 42 =
      ap get_last? (sym (append_assoc stem (codes "/*") (codes "*")))
      ∙ get_last?-append (stem ++ codes "/*") 42 in
    elim (Bool-cases (text_eq (stem ++ codes "/**") source)) [
      | inl same ↦
          let e = (text_eq_iff (stem ++ codes "/**") source).0 same in
          rw same (sym (rw e at (starts_with-append stem (codes "/**"))))
      | inr other ↦ rw (other, last, strip_suffix-append stem (codes "/**")) refl
    ]

matches_glob-star :
    (source stem : Text)
    → strip_suffix (stem ++ codes "*") (codes "/**") ≡ none
    → matches_glob source (stem ++ codes "*") ≡ starts_with source stem
unfolding matches_glob
matches_glob-star source stem not_depth = elim (Bool-cases (text_eq (stem ++ codes "*") source)) [
  | inl same ↦
      let e = (text_eq_iff (stem ++ codes "*") source).0 same in
      rw same (sym (rw e at (starts_with-append stem (codes "*"))))
  | inr other ↦
      rw (other, get_last?-append stem 42, not_depth, strip_suffix-append stem (codes "*")) refl
]

matches_glob-plain :
    (source pattern : Text)
    → strip_suffix pattern (codes "/**") ≡ none
    → strip_suffix pattern (codes "*") ≡ none
    → matches_glob source pattern ≡ starts_with source pattern
unfolding matches_glob
matches_glob-plain source pattern not_depth not_star = elim (Bool-cases (text_eq pattern source)) [
  | inl same ↦
      let e = (text_eq_iff pattern source).0 same in rw same (rw e (sym (starts_with_refl source)))
  | inr other ↦ rw (other, not_depth, not_star) (ground arith)
]

matching :
    (source pattern stem : Text)
    → matches_glob source pattern ≡ starts_with source stem
    → (matches_glob source pattern ≡ true) ↔ ((rest : Text) × (source ≡ stem ++ rest))
matching source pattern stem h = rw h (starts_with_iff source stem)

-- Every pattern has a stem, which is the pattern without a final `/**`, or else without a final `*`, or else the whole pattern;
-- and it takes in exactly the sources that are the stem and any rest, whether or not a `/` parts them.
pub matches_glob_lem :
    (pattern : Text)
    → (stem : Text) × IsStem pattern stem
      × ((source : Text)
          → (matches_glob source pattern ≡ true) ↔ ((rest : Text) × (source ≡ stem ++ rest)))
matches_glob_lem pattern = elim (strip_suffix_cases pattern (codes "/**")) [
  | inl (stem, e) ↦ rw e (
    stem,
    IsStem.depth stem,
    λ source. matching source (stem ++ codes "/**") stem (matches_glob-depth source stem),
  )
  | inr (not_depth, none_depth) ↦ elim (strip_suffix_cases pattern (codes "*")) [
    | inl (stem, e) ↦
        let not_depth' = rw e at not_depth in
        rw e (
          stem,
          IsStem.star stem (λ shorter same. none_depth shorter (e ∙ same)),
          λ source.
              matching source (stem ++ codes "*") stem (matches_glob-star source stem not_depth'),
        )
    | inr (not_star, none_star) ↦ (
      pattern,
      IsStem.plain pattern none_star,
      λ source.
          matching source pattern pattern (matches_glob-plain source pattern not_depth not_star),
    )
  ]
]
