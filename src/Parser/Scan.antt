-- ===== src/Parser/Scan.antt =====
-- The conversions of `sscanf` that src/system/parser.c uses, on the bytes of a line: `%31s` and `%d`.
-- A conversion gives the value and the bytes that are left, or `none` if it does not match.
use cmsc125_lab3_sabandal_sa.Common.{
  ℕ, zero, suc, ◌+◌, ◌-◌, ◌*◌, Bool, true, false, ◌&&◌, Option, none, some, List, [], ◌∷◌, ℤ, pos,
  leb, ltb, sub_ℕ, ◌==◌, if◌then◌else◌,
}
use cmsc125_lab3_sabandal_sa.CInt.{long_half, wrap_int}
use cmsc125_lab3_sabandal_sa.Parser.{isspace, skip_leading_spaces}

infixl 5 ◌>>=◌
abbrev pub ◌>>=◌ : {A B : Type 0} → Option A → (A → Option B) → Option B
none >>= f = none
some a >>= f = f a

-- `%31s` reads at most 31 bytes.
abbrev pub max_word : ℕ
max_word = 31

-- The bytes up to white space, at most `room` of them, and what is left.
abbrev pub word_from : ℕ → List ℕ → List ℕ × List ℕ
word_from room [] = ([], [])
word_from zero (ch ∷ s) = ([], ch ∷ s)
word_from (suc room) (ch ∷ s) =
    let (word, rest) = word_from room s in if isspace ch then ([], ch ∷ s) else (ch ∷ word, rest)

abbrev pub nonempty : List ℕ × List ℕ → Option (List ℕ × List ℕ)
nonempty ([], rest) = none
nonempty (ch ∷ word, rest) = some (ch ∷ word, rest)

unfoldable pub scan_word : List ℕ → Option (List ℕ × List ℕ)
unfolding skip_leading_spaces
scan_word s = nonempty (word_from max_word (skip_leading_spaces s))

abbrev pub is_digit : ℕ → Bool
is_digit ch = leb 48 ch && leb ch 57

-- The number that the digits go on with, and what is left.
abbrev pub digits_from : ℕ → List ℕ → ℕ × List ℕ
digits_from n [] = (n, [])
digits_from n (ch ∷ s) =
    let more = digits_from (n * 10 + (ch - 48)) s in if is_digit ch then more else (n, ch ∷ s)

-- `strtol` stops at the ends of `long`, and the result is stored as an `int`.
abbrev pub to_int : Bool → ℕ → ℤ
to_int true n = wrap_int (if leb n long_half then sub_ℕ 0 n else sub_ℕ 0 long_half)
to_int false n = wrap_int (if ltb n long_half then pos n else pos (long_half - 1))

abbrev pub with_sign : Bool → ℕ × List ℕ → Option (ℤ × List ℕ)
with_sign negative (n, rest) = some (to_int negative n, rest)

abbrev pub unsigned_from : Bool → List ℕ → Option (ℤ × List ℕ)
unsigned_from negative [] = none
unsigned_from negative (ch ∷ s) =
    if is_digit ch then with_sign negative (digits_from 0 (ch ∷ s)) else none

-- An optional sign, and digits.
abbrev pub signed_from : List ℕ → Option (ℤ × List ℕ)
signed_from [] = none
signed_from (ch ∷ s) =
    if ch == 45
    then unsigned_from true s
    else if ch == 43
    then unsigned_from false s
    else unsigned_from false (ch ∷ s)

unfoldable pub scan_int : List ℕ → Option (ℤ × List ℕ)
unfolding skip_leading_spaces
scan_int s = signed_from (skip_leading_spaces s)
