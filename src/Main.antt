-- ===== src/Main.antt =====
-- The command line of src/main.c: `Config`, `parse_tick_ms` and `parse_args`. An argument is the list
-- of its bytes before the terminating zero; none is NULL. `Main/Program` has `main`.
pub mod Arguments
pub mod Ticks
pub mod Program
pub mod Whole
use cmsc125_lab3_sabandal_sa.Common.{
  ℕ, suc, ◌+◌, ◌-◌, Bool, true, false, not, ◌&&◌, ◌||◌, Option, none, some, List, [], ◌∷◌, ℤ, pos,
  sub_ℕ, leb, ltb, leb_ℤ, ltb_ℤ, ◌==◌, if◌then◌else◌, codes, same_text,
}
use cmsc125_lab3_sabandal_sa.CInt.{int_half, long_half}
use cmsc125_lab3_sabandal_sa.Parser.{skip_leading_spaces}
use cmsc125_lab3_sabandal_sa.Parser.Scan.{◌>>=◌, is_digit, digits_from}

-- NULL is `none`.
pub record Config : Type 0 where
  pub accounts_file : Option (List ℕ)
  pub trace_file : Option (List ℕ)
  pub deadlock_mode : Option (List ℕ)
  pub tick_ms : ℤ
  pub verbose : ℤ

-- What `strtol` to base ten gives: the value, whether `errno` is set, and the bytes from `endptr` on.
pub record Strtol : Type 0 where
  pub parsed : ℤ
  pub range_error : Bool
  pub rest : List ℕ

abbrev pub strtol_value : Bool → ℕ × List ℕ → Strtol
strtol_value true (n, rest) =
    if leb n long_half
    then record { parsed = sub_ℕ 0 n; range_error = false; rest = rest }
    else record { parsed = sub_ℕ 0 long_half; range_error = true; rest = rest }
strtol_value false (n, rest) =
    if ltb n long_half
    then record { parsed = pos n; range_error = false; rest = rest }
    else record { parsed = pos (long_half - 1); range_error = true; rest = rest }

abbrev pub strtol_digits : Bool → List ℕ → Option Strtol
strtol_digits negative [] = none
strtol_digits negative (ch ∷ s) =
    if is_digit ch then some (strtol_value negative (digits_from 0 (ch ∷ s))) else none

abbrev pub strtol_signed : List ℕ → Option Strtol
strtol_signed [] = none
strtol_signed (ch ∷ s) =
    if ch == 45
    then strtol_digits true s
    else if ch == 43
    then strtol_digits false s
    else strtol_digits false (ch ∷ s)

-- `none` if there is no number: then `endptr` is where the text starts.
unfoldable pub strtol : List ℕ → Option Strtol
unfolding skip_leading_spaces
strtol value = strtol_signed (skip_leading_spaces value)

abbrev pub is_end : List ℕ → Bool
is_end [] = true
is_end (ch ∷ s) = false

-- The tests on the result of `strtol`; `INT_MAX` is `int_half - 1`.
abbrev pub checked_tick : Strtol → Option ℤ
checked_tick r =
    if (r.range_error || not (is_end r.rest))
      || leb_ℤ r.parsed (pos 0)
      || ltb_ℤ (pos (int_half - 1)) r.parsed
    then none
    else some r.parsed

unfoldable pub parse_tick_ms : List ℕ → Option ℤ
unfolding strtol
parse_tick_ms value = if is_end value then none else (strtol value >>= checked_tick)

-- What follows the option's name: `strncmp` with the length of the name, and `argv[i] +` that length.
unfoldable pub after_prefix : List ℕ → List ℕ → Option (List ℕ)
after_prefix [] arg = some arg
after_prefix (a ∷ name) [] = none
after_prefix (a ∷ name) (b ∷ arg) =
    let rest = after_prefix name arg in if a == b then rest else none

abbrev pub first_config : Config
first_config = record {
  accounts_file = none;
  trace_file = none;
  deadlock_mode = none;
  tick_ms = pos 100;
  verbose = pos 0;
}

abbrev pub with_tick : Config → Option ℤ → Option Config
with_tick config none = none
with_tick config (some tick_ms) = some (record config { tick_ms = tick_ms })

-- One round of the loop; the first name that fits counts.
unfoldable pub parse_argument : Config → List ℕ → Option Config
unfolding after_prefix parse_tick_ms
parse_argument config arg = elim (after_prefix (codes "--accounts=") arg) [
  | some value ↦ some (record config { accounts_file = some value })
  | none ↦ elim (after_prefix (codes "--trace=") arg) [
    | some value ↦ some (record config { trace_file = some value })
    | none ↦ elim (after_prefix (codes "--deadlock=") arg) [
      | some value ↦ some (record config { deadlock_mode = some value })
      | none ↦ elim (after_prefix (codes "--tick-ms=") arg) [
        | some value ↦ with_tick config (parse_tick_ms value)
        | none ↦
            if same_text arg (codes "--verbose")
            then some (record config { verbose = pos 1 })
            else none
      ]
    ]
  ]
]

unfoldable pub parse_arguments : Config → List (List ℕ) → Option Config
unfolding parse_argument
parse_arguments config [] = some config
parse_arguments config (arg ∷ args) =
    parse_argument config arg >>= λ next. parse_arguments next args

abbrev pub is_set : Option (List ℕ) → Bool
is_set none = false
is_set (some value) = true

abbrev pub is_prevention : Option (List ℕ) → Bool
is_prevention none = false
is_prevention (some value) = same_text value (codes "prevention")

-- The tests after the loop.
abbrev pub checked_config : Config → Option Config
checked_config config =
    if not (is_set config.accounts_file)
      || not (is_set config.trace_file)
      || not (is_set config.deadlock_mode)
    then none
    else if not (is_prevention config.deadlock_mode)
    then none
    else if leb_ℤ config.tick_ms (pos 0)
    then none
    else some config

-- The arguments after the program's name.
unfoldable pub parse_args : List (List ℕ) → Option Config
unfolding parse_arguments
parse_args args = parse_arguments first_config args >>= checked_config
