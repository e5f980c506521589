-- ===== src/Parser/Words.antt =====
-- What `%31s` and `%d` read of words and printed numbers between single spaces.
use Prim.Native.Nat.{◌/◌}
use cmsc125_lab3_sabandal_sa.Common.{
  ℕ, zero, suc, ◌+◌, ◌%◌, ◌≤◌, ◌<◌, ◌≡◌, refl, sym, ap, ◌∙◌, inl, inr, false, Option, some, List,
  [], ◌∷◌, ◌++◌, pos, arith, ltb, length, Bool-cases,
}
use cmsc125_lab3_sabandal_sa.CInt.{int_half}
use cmsc125_lab3_sabandal_sa.Parser.{isspace, skip_leading_spaces}
use cmsc125_lab3_sabandal_sa.Parser.Scan.{◌>>=◌, word_from, nonempty, max_word, scan_word, scan_int}
use cmsc125_lab3_sabandal_sa.Parser.Decimal.{
  decimal, digits_of, AllDigits, scan_int-decimal, scan_int-space, digit-no_space, append_nil,
}

abbrev pub NoSpaces : List ℕ → Type 0
NoSpaces [] = Unit
NoSpaces (ch ∷ s) = (isspace ch ≡ false) × NoSpaces s

word_from-all :
    (room : ℕ) (s rest : List ℕ)
    → NoSpaces s
    → length s ≤ room
    → word_from room (s ++ 32 ∷ rest) ≡ (s, 32 ∷ rest)
word_from-all zero [] rest h le = refl
word_from-all (suc room) [] rest h le = refl
word_from-all zero (ch ∷ s) rest h le = absurd (omega arith)
word_from-all (suc room) (ch ∷ s) rest h le =
    rw (h.0, word_from-all room s rest h.1 (omega arith)) refl

pub scan_word-all :
    (ch : ℕ) (s rest : List ℕ)
    → NoSpaces (ch ∷ s)
    → length (ch ∷ s) ≤ max_word
    → scan_word (ch ∷ (s ++ 32 ∷ rest)) ≡ some (ch ∷ s, 32 ∷ rest)
unfolding scan_word skip_leading_spaces
scan_word-all ch s rest h le = rw h.0 (ap nonempty (word_from-all max_word (ch ∷ s) rest h le))

pub scan_word-space : (s : List ℕ) → scan_word (32 ∷ s) ≡ scan_word s
unfolding scan_word skip_leading_spaces
scan_word-space s = refl

pub digits-NoSpaces : (s : List ℕ) → AllDigits s → NoSpaces s
digits-NoSpaces [] h = tt
digits-NoSpaces (ch ∷ s) h = (digit-no_space ch h.0, digits-NoSpaces s h.1)

length-append : (s : List ℕ) (ch : ℕ) → length (s ++ ch ∷ []) ≡ suc (length s)
length-append [] ch = refl
length-append (c ∷ s) ch = ap suc (length-append s ch)

pub digits_of-le : (places n : ℕ) → length (digits_of places n) ≤ places
digits_of-le zero n = omega arith
digits_of-le (suc places) n = elim (Bool-cases (ltb n 10)) [
  | inl e ↦ rw e (omega arith)
  | inr e ↦ rw e (
      omega (
        arith,
        length-append (digits_of places (n / 10)) (48 + n % 10),
        digits_of-le places (n / 10),
      ))
]

pub scan_int-last : (n : ℕ) → n < int_half → scan_int (decimal n) ≡ some (pos n, [])
scan_int-last n small = ap scan_int (sym (append_nil (decimal n))) ∙ scan_int-decimal n [] small tt

-- A number between others.
pub scan_int-next :
    (n : ℕ) (rest : List ℕ)
    → n < int_half
    → scan_int (32 ∷ (decimal n ++ 32 ∷ rest)) ≡ some (pos n, 32 ∷ rest)
scan_int-next n rest small =
    scan_int-space (decimal n ++ 32 ∷ rest) ∙ scan_int-decimal n (32 ∷ rest) small refl

pub scan_int-final : (n : ℕ) → n < int_half → scan_int (32 ∷ decimal n) ≡ some (pos n, [])
scan_int-final n small = scan_int-space (decimal n) ∙ scan_int-last n small

pub bind-eq :
    {A B : Type 0} (o : Option A) (f : A → Option B) (a : A) → o ≡ some a → (o >>= f) ≡ f a
bind-eq o f a h = ap (λ x. x >>= f) h
