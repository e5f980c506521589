-- ===== src/Bank/Lookup.antt =====
-- What `get_account` finds. Its shortcut through slot `account_id - 1` changes nothing in a bank
-- whose identifiers differ.
use cmsc125_lab3_sabandal_sa.Common.{
  ℕ, zero, suc, ◌+◌, ◌-◌, ◌≤◌, ◌<◌, ◌≡◌, refl, ap, ◌∙◌, ◌≢◌, inl, inr, true, none, some, List, [],
  ◌∷◌, ℤ, pos, pos_part, arith, ◌==ℤ◌, ◌≤ℤ◌, length, get_elem?, Bool-cases, Option-cases,
}
use cmsc125_lab3_sabandal_sa.CInt.{IsInt}
use cmsc125_lab3_sabandal_sa.Bank.{
  max_accounts, Account, Bank, scan, slot_has, direct_slot, get_account,
}

-- An account of the bank: a slot in use.
pub record IsSlot (bank : Bank) (i : ℕ) (a : Account) : Type 0 where
  pub in_use : i < bank.num_accounts
  pub entry : get_elem? bank.accounts i ≡ some a

-- The array has its full size, every account in use has an identifier and a balance of zero or
-- more, and no identifier occurs twice.
pub record IsValid (bank : Bank) : Type 0 where
  pub size : length bank.accounts ≡ max_accounts
  pub bounded : bank.num_accounts ≤ max_accounts
  pub id_nonneg : (i : ℕ) (a : Account) → IsSlot bank i a → pos 0 ≤ℤ a.account_id
  pub balance_nonneg : (i : ℕ) (a : Account) → IsSlot bank i a → pos 0 ≤ℤ a.balance_centavos
  pub balance_int : (i : ℕ) (a : Account) → IsSlot bank i a → IsInt a.balance_centavos
  pub distinct :
      (i j : ℕ) (a b : Account)
      → IsSlot bank i a
      → IsSlot bank j b
      → a.account_id ≡ b.account_id
      → i ≡ j

-- Where a scan stops: at the first slot that fits, with its place counted from `from`.
abbrev ScanHit : List Account → ℕ → ℕ → ℤ → ℕ → Type 0
ScanHit accounts from rounds id j =
    (k : ℕ) × (a : Account) × (j ≡ from + k)
    × (k < rounds)
    × (get_elem? accounts k ≡ some a)
    × (a.account_id ≡ id)

pub scan-hit :
    (accounts : List Account) (from rounds : ℕ) (id : ℤ) (j : ℕ)
    → scan accounts from rounds id ≡ some j
    → ScanHit accounts from rounds id j
unfolding scan
scan-hit [] from rounds id j h = cc
scan-hit (a ∷ rest) from zero id j h = cc
scan-hit (a ∷ rest) from (suc rounds) id j h = elim (Bool-cases (a.account_id ==ℤ id)) [
  | inl e ↦ (zero, a, ground arith, omega arith, refl, ground arith)
  | inr e ↦
      let (k, b, place, low, entry, same) = scan-hit rest (suc from) rounds id j (rw e at h) in
      (suc k, b, omega arith, omega arith, entry, same)
]

pub scan-miss :
    (accounts : List Account) (from rounds : ℕ) (id : ℤ)
    → scan accounts from rounds id ≡ none
    → (k : ℕ) (a : Account) → k < rounds
    → get_elem? accounts k ≡ some a
    → a.account_id ≢ id
unfolding scan
scan-miss [] from rounds id h k a lt e = cc
scan-miss (x ∷ rest) from zero id h k a lt e = absurd (omega arith)
scan-miss (x ∷ rest) from (suc rounds) id h zero a lt e = ground arith
scan-miss (x ∷ rest) from (suc rounds) id h (suc k) a lt e =
    scan-miss rest (suc from) rounds id (ground arith) k a (omega arith) e

slot_has-entry :
    (accounts : List Account) (i : ℕ) (id : ℤ)
    → slot_has accounts i id ≡ true
    → (a : Account) × (get_elem? accounts i ≡ some a) × (a.account_id ≡ id)
slot_has-entry accounts i id h = elim (Option-cases (get_elem? accounts i)) [
  | inl e ↦ ground arith
  | inr (a, e) ↦ (a, e, ground arith)
]

-- The shortcut's slot is an account with the identifier.
direct_slot-IsSlot :
    (bank : Bank) (id : ℤ)
    → direct_slot bank id ≡ true
    → (a : Account) × IsSlot bank (pos_part id - 1) a × (a.account_id ≡ id)
unfolding direct_slot
direct_slot-IsSlot bank id h =
    let (a, entry, same) = slot_has-entry bank.accounts (pos_part id - 1) id (ground arith) in
    (a, record { in_use = ground arith; entry = entry }, same)

scan-IsSlot :
    (bank : Bank) (id : ℤ) (i : ℕ)
    → scan bank.accounts 0 bank.num_accounts id ≡ some i
    → (a : Account) × IsSlot bank i a × (a.account_id ≡ id)
scan-IsSlot bank id i h =
    let (k, a, place, low, entry, same) = scan-hit bank.accounts 0 bank.num_accounts id i h in
    let at : i ≡ k = omega arith in (a, record { in_use = omega arith; entry = rw at entry }, same)

-- What a lookup finds is an account of the bank with the identifier that was asked for.
pub get_account-IsSlot :
    (bank : Bank) (id : ℤ) (i : ℕ)
    → get_account bank id ≡ some i
    → (a : Account) × IsSlot bank i a × (a.account_id ≡ id) × (pos 0 ≤ℤ id)
unfolding get_account
get_account-IsSlot bank id i h = elim (Bool-cases (direct_slot bank id)) [
  | inl e ↦
      let (a, slot, same) = direct_slot-IsSlot bank id e in
      let at : i ≡ pos_part id - 1 = ground arith in (a, rw at slot, same, ground arith)
  | inr e ↦
      let (a, slot, same) = scan-IsSlot bank id i (ground arith) in (a, slot, same, ground arith)
]

scan-of_IsSlot :
    (bank : Bank) (i : ℕ) (a : Account)
    → IsValid bank
    → IsSlot bank i a
    → scan bank.accounts 0 bank.num_accounts a.account_id ≡ some i
scan-of_IsSlot bank i a v slot =
    elim (Option-cases (scan bank.accounts 0 bank.num_accounts a.account_id)) [
      | inl e ↦ absurd (
          scan-miss bank.accounts 0 bank.num_accounts a.account_id e i a slot.in_use slot.entry
            refl)
      | inr (j, e) ↦
          let (b, other, same) = scan-IsSlot bank a.account_id j e in
          e ∙ ap some (v.distinct j i b a other slot same)
    ]

-- A lookup gives what the plain scan gives: the shortcut changes no result.
pub get_account-eq-scan :
    (bank : Bank) (id : ℤ)
    → IsValid bank
    → pos 0 ≤ℤ id
    → get_account bank id ≡ scan bank.accounts 0 bank.num_accounts id
unfolding get_account
get_account-eq-scan bank id v low = elim (Bool-cases (direct_slot bank id)) [
  | inl e ↦
      let (a, slot, same) = direct_slot-IsSlot bank id e in
      let hit = rw same at (scan-of_IsSlot bank (pos_part id - 1) a v slot) in ground arith
  | inr e ↦ ground arith
]

-- An identifier that the bank has is found, in its slot.
pub get_account-of_IsSlot :
    (bank : Bank) (i : ℕ) (a : Account)
    → IsValid bank
    → IsSlot bank i a
    → get_account bank a.account_id ≡ some i
get_account-of_IsSlot bank i a v slot =
    get_account-eq-scan bank a.account_id v (v.id_nonneg i a slot) ∙ scan-of_IsSlot bank i a v slot
