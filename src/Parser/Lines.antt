-- ===== src/Parser/Lines.antt =====
-- What the helpers on lines do.
use cmsc125_lab3_sabandal_sa.Common.{
  ℕ, ◌≡◌, refl, subst, sym, ap, ◌∙◌, true, false, Bool-cases, inl, inr, List, [], ◌∷◌, ◌++◌,
  reverse, arith, ◌==◌, ◌||◌,
}
use mathlib.Core.List.{reverse-append, reverse-reverse}
use cmsc125_lab3_sabandal_sa.Parser.{
  isspace, trim_from_end, trim_newline, is_empty_line, skip_leading_spaces, should_skip_line,
}

-- A line that `is_empty_line` accepts is skipped.
should_skip_line-is_empty_line :
    (line : List ℕ) → is_empty_line line ≡ true → should_skip_line line ≡ true
unfolding should_skip_line is_empty_line skip_leading_spaces
should_skip_line-is_empty_line [] h = refl
should_skip_line-is_empty_line (ch ∷ line) h = elim (Bool-cases (isspace ch)) [
  | inl e ↦ rw e (should_skip_line-is_empty_line line (ground arith))
  | inr e ↦ absurd (ground arith)
]

-- Every byte is white space.
abbrev pub AllSpace : List ℕ → Type 0
AllSpace [] = Unit
AllSpace (ch ∷ rest) = (isspace ch ≡ true) × AllSpace rest

-- There is no first byte, or it is not white space.
abbrev pub StartsWell : List ℕ → Type 0
StartsWell [] = Unit
StartsWell (ch ∷ rest) = isspace ch ≡ false

trim_from_end-split :
    (xs : List ℕ)
    → (spaces : List ℕ) × (xs ≡ spaces ++ trim_from_end xs)
      × AllSpace spaces
      × StartsWell (trim_from_end xs)
unfolding trim_from_end
trim_from_end-split [] = ([], refl, tt, tt)
trim_from_end-split (ch ∷ rest) = elim (Bool-cases (isspace ch)) [
  | inl e ↦
      let (spaces, whole, all, well) = trim_from_end-split rest in
      let here : (ch == 10 || ch == 13 || isspace ch) ≡ true = ground arith in
      rw here (ch ∷ spaces, ap (ch ∷◌) whole, (e, all), well)
  | inr e ↦
      let here : (ch == 10 || ch == 13 || isspace ch) ≡ false = ground arith in
      rw here ([], refl, tt, e)
]

-- Trimming. `trim_newline` takes white space off the end of a line, and nothing else: the line is
-- the trimmed line followed by some bytes of white space, given here from the last to the first,
-- and the trimmed line has no white space at its end.
pub trim_newline-split :
    (line : List ℕ)
    → (spaces : List ℕ) × (line ≡ trim_newline line ++ reverse spaces)
      × AllSpace spaces
      × StartsWell (reverse (trim_newline line))
unfolding trim_newline
trim_newline-split line =
    let (spaces, whole, all, well) = trim_from_end-split (reverse line) in
    (
      spaces,
      sym (reverse-reverse line)
          ∙ ap reverse whole
          ∙ reverse-append spaces (trim_from_end (reverse line)),
      all,
      subst StartsWell (sym (reverse-reverse (trim_from_end (reverse line)))) well,
    )
