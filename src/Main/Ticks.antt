-- ===== src/Main/Ticks.antt =====
-- The tick length in decimal, as `parse_tick_ms` of src/main.c reads it.
use cmsc125_lab3_sabandal_sa.Common.{
  ℕ, ◌<◌, ◌≡◌, refl, ap, ◌∙◌, false, none, some, List, [], ◌∷◌, pos, arith, length, if◌then◌else◌,
}
use cmsc125_lab3_sabandal_sa.CInt.{int_half}
use cmsc125_lab3_sabandal_sa.Parser.{skip_leading_spaces}
use cmsc125_lab3_sabandal_sa.Parser.Scan.{◌>>=◌, digits_from}
use cmsc125_lab3_sabandal_sa.Parser.Decimal.{
  decimal, AllDigits, digits_of-AllDigits, digit-no_space, digit-no_sign, digits_from-decimal,
  decimal-length,
}
use cmsc125_lab3_sabandal_sa.Main.{strtol_value, strtol, is_end, checked_tick, parse_tick_ms}

strtol-digits :
    (s : List ℕ)
    → AllDigits s
    → 0 < length s
    → strtol s ≡ some (strtol_value false (digits_from 0 s))
unfolding strtol skip_leading_spaces
strtol-digits [] h some_digit = absurd (omega arith)
strtol-digits (ch ∷ s) h some_digit =
    let (no_minus, no_plus) = digit-no_sign ch h.0 in
    rw (digit-no_space ch h.0, no_minus, no_plus, h.0) refl

not_end : (s : List ℕ) → 0 < length s → is_end s ≡ false
not_end [] h = absurd (omega arith)
not_end (ch ∷ s) h = refl

checked_tick-pos :
    (n : ℕ) → 0 < n → n < int_half → checked_tick (strtol_value false (n, [])) ≡ some (pos n)
checked_tick-pos n positive small = ground arith

-- Every tick length that an `int` holds can be given. For a number from 1 to `INT_MAX`,
-- `parse_tick_ms` of its decimal text gives the number.
pub parse_tick_ms-decimal :
    (n : ℕ) → 0 < n → n < int_half → parse_tick_ms (decimal n) ≡ some (pos n)
unfolding parse_tick_ms
parse_tick_ms-decimal n positive small =
    ap (λ b. if b then none else (strtol (decimal n) >>= checked_tick))
      (not_end (decimal n) (decimal-length n))
    ∙ ap (λ o. o >>= checked_tick)
        (strtol-digits (decimal n) (digits_of-AllDigits 10 n) (decimal-length n)
          ∙ ap (λ r. some (strtol_value false r)) (digits_from-decimal n small))
    ∙ checked_tick-pos n positive small
