-- ===== src/CInt.antt =====
-- C's `int` (32 bits) and `long` (64 bits). A sum out of range wraps around in two's complement,
-- which is what the compiled code does where the language leaves the result undefined.
use cmsc125_lab3_sabandal_sa.Common.{
  ℕ, ◌+◌, ◌-◌, ◌%◌, ◌^◌, ◌≤◌, ◌<◌, ◌≡◌, arith, ℤ, pos_part, neg_part, sub_ℕ, ◌+ℤ◌, ◌-ℤ◌,
}

-- The integer of `w` bits that is `z` modulo `2 ^ w`; `half` is `2 ^ (w - 1)`.
abbrev wrap : ℕ → ℤ → ℤ
wrap half z =
    sub_ℕ ((pos_part z + half + (half + half - neg_part z % (half + half))) % (half + half)) half

abbrev pub int_half : ℕ
int_half = 2 ^ 31

abbrev pub long_half : ℕ
long_half = 2 ^ 63

unfoldable pub wrap_int : ℤ → ℤ
wrap_int z = wrap int_half z

unfoldable pub wrap_long : ℤ → ℤ
wrap_long z = wrap long_half z

unfoldable pub add_int : ℤ → ℤ → ℤ
add_int a b = wrap_int (a +ℤ b)

unfoldable pub sub_int : ℤ → ℤ → ℤ
sub_int a b = wrap_int (a -ℤ b)

unfoldable pub add_long : ℤ → ℤ → ℤ
add_long a b = wrap_long (a +ℤ b)

unfoldable pub sub_long : ℤ → ℤ → ℤ
sub_long a b = wrap_long (a -ℤ b)

-- The value is one that the type holds.
abbrev pub IsInt : ℤ → Type 0
IsInt z = (pos_part z < int_half) × (neg_part z ≤ int_half)

abbrev pub IsLong : ℤ → Type 0
IsLong z = (pos_part z < long_half) × (neg_part z ≤ long_half)

pub wrap_int-IsInt : (z : ℤ) → IsInt (wrap_int z)
unfolding wrap_int
wrap_int-IsInt z = ground arith

pub wrap_int_self : (z : ℤ) → IsInt z → wrap_int z ≡ z
unfolding wrap_int
wrap_int_self z h = ground arith

pub wrap_long_self : (z : ℤ) → IsLong z → wrap_long z ≡ z
unfolding wrap_long
wrap_long_self z h = ground arith

pub add_int_exact : (a b : ℤ) → IsInt (a +ℤ b) → add_int a b ≡ a +ℤ b
unfolding add_int
add_int_exact a b h = wrap_int_self (a +ℤ b) h

pub sub_int_exact : (a b : ℤ) → IsInt (a -ℤ b) → sub_int a b ≡ a -ℤ b
unfolding sub_int
sub_int_exact a b h = wrap_int_self (a -ℤ b) h

pub add_long_exact : (a b : ℤ) → IsLong (a +ℤ b) → add_long a b ≡ a +ℤ b
unfolding add_long
add_long_exact a b h = wrap_long_self (a +ℤ b) h

pub sub_long_exact : (a b : ℤ) → IsLong (a -ℤ b) → sub_long a b ≡ a -ℤ b
unfolding sub_long
sub_long_exact a b h = wrap_long_self (a -ℤ b) h
