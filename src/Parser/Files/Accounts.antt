-- ===== src/Parser/Files/Accounts.antt =====
-- The bank that an accounts file makes.
use cmsc125_lab3_sabandal_sa.Common.{
  ℕ, ◌≡◌, refl, ap, Bool, true, false, Option, none, some, List, [], ◌∷◌, ℤ, pos, arith, ltb_ℤ,
  ◌==◌, if◌then◌else◌, subst,
}
use cmsc125_lab3_sabandal_sa.CInt.{IsInt, wrap_int-IsInt}
use cmsc125_lab3_sabandal_sa.Bank.{Bank, add_account}
use cmsc125_lab3_sabandal_sa.Bank.Loaded.{IsLoaded, add_account-IsLoaded}
use cmsc125_lab3_sabandal_sa.Parser.{trim_newline, should_skip_line, skip_leading_spaces}
use cmsc125_lab3_sabandal_sa.Parser.Scan.{
  ◌>>=◌, is_digit, to_int, digits_from, with_sign, unsigned_from, signed_from, scan_int,
}
use cmsc125_lab3_sabandal_sa.Parser.Files.{
  accepted, parse_account, account_line, parse_accounts_file,
}

-- A chain that succeeds does so by its first step.
pub bind-some :
    {A B : Type 0} (o : Option A) (f : A → Option B) (b : B)
    → (o >>= f) ≡ some b
    → (a : A) × (o ≡ some a) × (f a ≡ some b)
bind-some none f b h = cc
bind-some (some a) f b h = (a, refl, h)

-- A test that fails has a condition that is false.
pub else-some :
    {A : Type 0} (b : Bool) (o : Option A) (a : A) → (if b then none else o) ≡ some a → o ≡ some a
else-some true o a h = cc
else-some false o a h = h

to_int-IsInt : (negative : Bool) (n : ℕ) → IsInt (to_int negative n)
to_int-IsInt true n = wrap_int-IsInt _
to_int-IsInt false n = wrap_int-IsInt _

-- What a conversion gives is an `int`.
abbrev IntOrNone : Option (ℤ × List ℕ) → Type 0
IntOrNone none = Unit
IntOrNone (some (z, rest)) = IsInt z

either :
    (b : Bool) (x y : Option (ℤ × List ℕ))
    → IntOrNone x
    → IntOrNone y
    → IntOrNone (if b then x else y)
either true x y p q = p
either false x y p q = q

unsigned-IsInt : (negative : Bool) (s : List ℕ) → IntOrNone (unsigned_from negative s)
unsigned-IsInt negative [] = tt
unsigned-IsInt negative (ch ∷ s) =
    either (is_digit ch) (with_sign negative (digits_from 0 (ch ∷ s))) none
      (to_int-IsInt negative (digits_from 0 (ch ∷ s)).0) tt

signed-IsInt : (s : List ℕ) → IntOrNone (signed_from s)
signed-IsInt [] = tt
signed-IsInt (ch ∷ s) = either (ch == 45) (unsigned_from true s) _ (unsigned-IsInt true s) (
    either (ch == 43) (unsigned_from false s) _ (unsigned-IsInt false s)
      (unsigned-IsInt false (ch ∷ s)))

scan_int-IsInt : (s : List ℕ) (z : ℤ) (rest : List ℕ) → scan_int s ≡ some (z, rest) → IsInt z
unfolding scan_int
scan_int-IsInt s z rest h = subst IntOrNone h (signed-IsInt (skip_leading_spaces s))

accepted-some :
    (o : Option (Bool × Bank)) (bank : Bank) → accepted o ≡ some bank → o ≡ some (true, bank)
accepted-some none bank h = cc
accepted-some (some (false, b)) bank h = cc
accepted-some (some (true, b)) bank h = ground arith

same_bank : (bank bank' : Bank) → some bank ≡ some bank' → bank ≡ bank'
same_bank bank bank' h = ap (λ (o : Option Bank). elim o [ none ↦ bank | some b ↦ b ]) h

parse_account-IsLoaded :
    (bank bank' : Bank) (line : List ℕ)
    → IsLoaded bank
    → parse_account bank line ≡ some bank'
    → IsLoaded bank'
unfolding parse_account
parse_account-IsLoaded bank bank' line v h =
    let ((id, rest), e, h') = bind-some (scan_int line) _ bank' h in
    let ((balance, rest'), e', h'') = bind-some (scan_int rest) _ bank' h' in
    let low = else-some (ltb_ℤ id (pos 0)) _ bank' h'' in
    let added = else-some (ltb_ℤ balance (pos 0)) _ bank' low in
    add_account-IsLoaded bank id balance bank' v (scan_int-IsInt rest balance rest' e')
      (accepted-some (add_account bank id balance) bank' added)

line-IsLoaded :
    (bank bank' : Bank) (line : List ℕ) (skipped : Bool)
    → IsLoaded bank
    → (if skipped then some bank else parse_account bank line) ≡ some bank'
    → IsLoaded bank'
line-IsLoaded bank bank' line true v h = subst IsLoaded (same_bank bank bank' h) v
line-IsLoaded bank bank' line false v h = parse_account-IsLoaded bank bank' line v h

-- The bank of an accounts file. If `parse_accounts_file` succeeds on a loaded bank, such as
-- `init_bank` leaves, it gives a loaded bank: its identifiers differ and are not negative, every
-- balance is an `int` and not negative, a slot not in use holds no money, and every lock is free.
pub parse_accounts_file-IsLoaded :
    (lines : List (List ℕ)) (bank bank' : Bank)
    → IsLoaded bank
    → parse_accounts_file lines bank ≡ some bank'
    → IsLoaded bank'
unfolding parse_accounts_file account_line
parse_accounts_file-IsLoaded [] bank bank' v h = subst IsLoaded (same_bank bank bank' h) v
parse_accounts_file-IsLoaded (line ∷ lines) bank bank' v h =
    let (next, e, rest) =
      bind-some (account_line bank (trim_newline line)) (parse_accounts_file lines) bank' h in
    parse_accounts_file-IsLoaded lines next bank'
      (line-IsLoaded bank next (trim_newline line) (should_skip_line (trim_newline line)) v e) rest
