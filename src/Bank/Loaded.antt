-- ===== src/Bank/Loaded.antt =====
-- The bank between `init_bank` and the start of the threads: also the slots that it does not use, and
-- the locks, are as the threads need them.
use cmsc125_lab3_sabandal_sa.Common.{
  ℕ, zero, suc, ◌≤◌, ◌≡◌, ◌≢◌, refl, sym, subst, ap, ap₂, ◌∙◌, inl, inr, ◌⊎◌, true, some, List, [],
  ◌∷◌, ℤ, pos, neg_part, arith, length, get_elem?, replicate, modify,
}
use cmsc125_lab3_sabandal_sa.CInt.{IsInt}
use cmsc125_lab3_sabandal_sa.RwLock.{open_lock}
use cmsc125_lab3_sabandal_sa.Bank.{
  max_accounts, Account, Bank, zeroed_bank, init_bank, add_account, init_locks, init_account_locks,
}
use cmsc125_lab3_sabandal_sa.Bank.Lookup.{IsValid}
use cmsc125_lab3_sabandal_sa.Bank.Setup.{
  reset_entry, init_bank-IsValid, add_account-IsValid, add_account-Accepts,
}

pub record IsLoaded (bank : Bank) : Type 0 where
  pub valid : IsValid bank
  pub nonneg :
      (k : ℕ) (a : Account) → get_elem? bank.accounts k ≡ some a → neg_part a.balance_centavos ≡ 0
  pub blank :
      (k : ℕ) (a : Account)
      → bank.num_accounts ≤ k
      → get_elem? bank.accounts k ≡ some a
      → a.balance_centavos ≡ pos 0
  pub unlocked : (k : ℕ) (a : Account) → get_elem? bank.accounts k ≡ some a → a.lock ≡ open_lock

modified :
    (xs : List Account) (i k : ℕ) (f : Account → Account) (a : Account)
    → get_elem? (modify xs i f) k ≡ some a
    → ((i ≡ k) × (b : Account) × (get_elem? xs k ≡ some b) × (a ≡ f b))
      ⊎ ((i ≢ k) × (get_elem? xs k ≡ some a))
modified [] i k f a h = cc
modified (x ∷ xs) zero zero f a h = inl (refl, x, refl, ground arith)
modified (x ∷ xs) zero (suc k) f a h = inr ((λ e. ground arith), h)
modified (x ∷ xs) (suc i) zero f a h = inr ((λ e. ground arith), h)
modified (x ∷ xs) (suc i) (suc k) f a h = elim (modified xs i k f a h) [
  | inl (e, b, entry, same) ↦ inl (ap suc e, b, entry, same)
  | inr (e, entry) ↦ inr ((λ p. e (omega arith)), entry)
]

-- An account that is added keeps the bank as the threads need it.
pub add_account-IsLoaded :
    (bank : Bank) (id balance : ℤ) (bank' : Bank)
    → IsLoaded bank
    → IsInt balance
    → add_account bank id balance ≡ some (true, bank')
    → IsLoaded bank'
add_account-IsLoaded bank id balance bank' w int h =
    let ok = add_account-Accepts bank id balance bank' h in
    let valid = (add_account-IsValid bank id balance bank' w.valid int h).0 in
    rw ok.result (record {
      valid = rw⁻¹ ok.result valid;
      nonneg = λ k a e. elim (modified bank.accounts bank.num_accounts k _ a e) [
        | inl (at, b, entry, same) ↦
            ap (λ (x : Account). neg_part x.balance_centavos) same ∙ ground (arith, ok.balance_low)
        | inr (other, entry) ↦ w.nonneg k a entry
      ];
      blank = λ k a beyond e. elim (modified bank.accounts bank.num_accounts k _ a e) [
        | inl (at, b, entry, same) ↦ absurd (omega arith)
        | inr (other, entry) ↦ w.blank k a (omega arith) entry
      ];
      unlocked = λ k a e. elim (modified bank.accounts bank.num_accounts k _ a e) [
        | inl (at, b, entry, same) ↦ ap (λ (x : Account). x.lock) same ∙ w.unlocked k b entry
        | inr (other, entry) ↦ w.unlocked k a entry
      ];
    })

-- `init_bank` makes such a bank of one whose array has its full size and whose locks are free.
pub init_bank-IsLoaded :
    (bank : Bank)
    → length bank.accounts ≡ max_accounts
    → ((k : ℕ) (a : Account) → get_elem? bank.accounts k ≡ some a → a.lock ≡ open_lock)
    → IsLoaded (init_bank bank)
unfolding init_bank
init_bank-IsLoaded bank size free = record {
  valid = (init_bank-IsValid bank size).0;
  nonneg = λ k a e.
      let (b, entry, same) = reset_entry bank.accounts k a e in
      ap (λ (x : Account). neg_part x.balance_centavos) same;
  blank = λ k a beyond e.
      let (b, entry, same) = reset_entry bank.accounts k a e in
      ap (λ (x : Account). x.balance_centavos) same;
  unlocked = λ k a e.
      let (b, entry, same) = reset_entry bank.accounts k a e in
      ap (λ (x : Account). x.lock) same ∙ free k b entry;
}

replicated : (n k : ℕ) (x a : Account) → get_elem? (replicate n x) k ≡ some a → a ≡ x
replicated zero k x a h = cc
replicated (suc n) zero x a h = ground arith
replicated (suc n) (suc k) x a h = replicated n k x a h

pub first-IsLoaded : IsLoaded (init_bank zeroed_bank)
first-IsLoaded =
    init_bank-IsLoaded zeroed_bank refl
      (λ k a e. ap (λ (x : Account). x.lock) (replicated max_accounts k _ a e))

init_locks_same :
    (xs : List Account) (n : ℕ)
    → ((k : ℕ) (a : Account) → get_elem? xs k ≡ some a → a.lock ≡ open_lock)
    → init_locks xs n ≡ xs
unfolding init_locks
init_locks_same [] n free = refl
init_locks_same (x ∷ xs) zero free = refl
init_locks_same (x ∷ xs) (suc n) free =
    ap₂ ◌∷◌ (ap (λ l. record x { lock = l }) (sym (free 0 x refl)))
      (init_locks_same xs n (λ k. free (suc k)))

-- The locks of a loaded bank are as `init_account_locks` makes them.
pub init_account_locks-IsLoaded : (bank : Bank) → IsLoaded bank → IsLoaded (init_account_locks bank)
unfolding init_account_locks
init_account_locks-IsLoaded bank w =
    subst IsLoaded
      (ap (λ xs. record bank { accounts = xs })
        (sym (init_locks_same bank.accounts bank.num_accounts w.unlocked)))
      w
