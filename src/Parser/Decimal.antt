-- ===== src/Parser/Decimal.antt =====
-- Numbers as `%d` prints them, and what the conversions of `Parser/Scan` read of them.
use Prim.Native.Nat.{◌/◌}
use cmsc125_lab3_sabandal_sa.Common.{
  ℕ, zero, suc, ◌+◌, ◌-◌, ◌*◌, ◌%◌, ◌<◌, ◌≡◌, refl, sym, ap, ◌∙◌, inl, inr, true, false, some, List,
  [], ◌∷◌, ◌++◌, pos, arith, ltb, ◌==◌, Bool-cases, if◌then◌else◌, length,
}
use cmsc125_lab3_sabandal_sa.CInt.{int_half, long_half, wrap_int, wrap_int_self}
use cmsc125_lab3_sabandal_sa.Parser.{isspace, skip_leading_spaces}
use cmsc125_lab3_sabandal_sa.Parser.Scan.{is_digit, digits_from, to_int, with_sign, scan_int}

-- The last `places` digits, and no more zeros in front than one.
abbrev pub digits_of : ℕ → ℕ → List ℕ
digits_of zero n = []
digits_of (suc places) n =
    let front = digits_of places (n / 10) in
    if ltb n 10 then (48 + n) ∷ [] else (front ++ (48 + n % 10) ∷ [])

-- An `int` has at most ten digits.
abbrev pub decimal : ℕ → List ℕ
decimal n = digits_of 10 n

abbrev pub AllDigits : List ℕ → Type 0
AllDigits [] = Unit
AllDigits (ch ∷ s) = (is_digit ch ≡ true) × AllDigits s

value : ℕ → List ℕ → ℕ
value k [] = k
value k (ch ∷ s) = value (k * 10 + (ch - 48)) s

abbrev limit : ℕ → ℕ
limit zero = 1
limit (suc places) = 10 * limit places

value-append : (k : ℕ) (s : List ℕ) (ch : ℕ) → value k (s ++ ch ∷ []) ≡ value k s * 10 + (ch - 48)
unfolding value
value-append k [] ch = refl
value-append k (c ∷ s) ch = value-append (k * 10 + (c - 48)) s ch

AllDigits-append :
    (s : List ℕ) (ch : ℕ) → AllDigits s → is_digit ch ≡ true → AllDigits (s ++ ch ∷ [])
AllDigits-append [] ch h e = (e, tt)
AllDigits-append (c ∷ s) ch h e = (h.0, AllDigits-append s ch h.1 e)

pub digits_of-AllDigits : (places n : ℕ) → AllDigits (digits_of places n)
digits_of-AllDigits zero n = tt
digits_of-AllDigits (suc places) n = elim (Bool-cases (ltb n 10)) [
  | inl e ↦ rw e (ground arith, tt)
  | inr e ↦ rw e (
      AllDigits-append (digits_of places (n / 10)) (48 + n % 10)
        (digits_of-AllDigits places (n / 10)) (ground arith))
]

value-digits_of : (places n : ℕ) → n < limit places → value 0 (digits_of places n) ≡ n
unfolding value
value-digits_of zero n small = omega arith
value-digits_of (suc places) n small = elim (Bool-cases (ltb n 10)) [
  | inl e ↦ rw e (omega arith)
  | inr e ↦ rw e (
      value-append 0 (digits_of places (n / 10)) (48 + n % 10)
      ∙ omega (arith, value-digits_of places (n / 10) (omega arith)))
]

-- What stands behind a number and is no part of it.
abbrev pub Stops : List ℕ → Type 0
Stops [] = Unit
Stops (ch ∷ s) = is_digit ch ≡ false

digits_from-all :
    (k : ℕ) (s rest : List ℕ)
    → AllDigits s
    → Stops rest
    → digits_from k (s ++ rest) ≡ (value k s, rest)
unfolding value
digits_from-all k [] [] h stops = refl
digits_from-all k [] (ch ∷ rest) h stops = rw stops refl
digits_from-all k (ch ∷ s) rest h stops =
    rw h.0 (digits_from-all (k * 10 + (ch - 48)) s rest h.1 stops)

pub digit-no_space : (ch : ℕ) → is_digit ch ≡ true → isspace ch ≡ false
digit-no_space ch h = ground arith

pub digit-no_sign : (ch : ℕ) → is_digit ch ≡ true → ((ch == 45) ≡ false) × ((ch == 43) ≡ false)
digit-no_sign ch h = (ground arith, ground arith)

scan_int-digits :
    (s rest : List ℕ)
    → AllDigits s
    → 0 < length s
    → Stops rest
    → scan_int (s ++ rest) ≡ some (to_int false (value 0 s), rest)
unfolding scan_int skip_leading_spaces value
scan_int-digits [] rest h some_digit stops = absurd (omega arith)
scan_int-digits (ch ∷ s) rest h some_digit stops =
    let (no_minus, no_plus) = digit-no_sign ch h.0 in
    rw (digit-no_space ch h.0, no_minus, no_plus, h.0)
      (ap (with_sign false) (digits_from-all (0 * 10 + (ch - 48)) s rest h.1 stops))

length-append : (s : List ℕ) (ch : ℕ) → 0 < length (s ++ ch ∷ [])
length-append [] ch = omega arith
length-append (c ∷ s) ch = omega arith

digits_of-length : (places n : ℕ) → 0 < length (digits_of (suc places) n)
digits_of-length places n = elim (Bool-cases (ltb n 10)) [
  | inl e ↦ rw e (omega arith)
  | inr e ↦ rw e (length-append (digits_of places (n / 10)) (48 + n % 10))
]

to_int_self : (n : ℕ) → n < int_half → to_int false n ≡ pos n
to_int_self n small =
    ap wrap_int (ap (λ b. if b then pos n else pos (long_half - 1)) (fits n small))
    ∙ wrap_int_self (pos n) (small, omega arith)
  where
    fits : (n : ℕ) → n < int_half → ltb n long_half ≡ true
    fits n small = ground arith

-- A printed number is read back.
pub scan_int-decimal :
    (n : ℕ) (rest : List ℕ)
    → n < int_half
    → Stops rest
    → scan_int (decimal n ++ rest) ≡ some (pos n, rest)
scan_int-decimal n rest small stops =
    scan_int-digits (decimal n) rest (digits_of-AllDigits 10 n) (digits_of-length 9 n) stops
    ∙ ap (λ k. some (to_int false k, rest)) (value-digits_of 10 n (omega arith))
    ∙ ap (λ z. some (z, rest)) (to_int_self n small)

-- Leading spaces are skipped.
pub scan_int-space : (s : List ℕ) → scan_int (32 ∷ s) ≡ scan_int s
unfolding scan_int skip_leading_spaces
scan_int-space s = refl

pub append_nil : (s : List ℕ) → s ++ [] ≡ s
append_nil [] = refl
append_nil (c ∷ s) = ap (c ∷◌) (append_nil s)

pub digits_from-decimal : (n : ℕ) → n < int_half → digits_from 0 (decimal n) ≡ (n, [])
digits_from-decimal n small =
    ap (digits_from 0) (sym (append_nil (decimal n)))
    ∙ digits_from-all 0 (decimal n) [] (digits_of-AllDigits 10 n) tt
    ∙ ap (λ k. (k, [])) (value-digits_of 10 n (omega arith))

pub decimal-length : (n : ℕ) → 0 < length (decimal n)
decimal-length n = digits_of-length 9 n
