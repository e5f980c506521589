-- ===== src/Bank/Setup.antt =====
-- How `main` fills the bank before the threads start: `init_bank` and `add_account`.
use cmsc125_lab3_sabandal_sa.Common.{
  ℕ, zero, suc, ◌+◌, ◌≤◌, ◌<◌, ◌≡◌, refl, subst, sym, ap, ◌∙◌, ◌≢◌, inl, inr, ◌⊎◌, Bool, true,
  false, none, some, List, [], ◌∷◌, map, ℤ, pos, negsuc, arith, ◌≤ℤ◌, ◌<ℤ◌, leb, ltb_ℤ, length,
  get_elem?, modify, length-modify, get_elem?-modify_self, get_elem?-modify_ne, get_elem?-some,
  Bool-cases, Option-cases, ℕ_discrete,
}
use cmsc125_lab3_sabandal_sa.CInt.{IsInt}
use cmsc125_lab3_sabandal_sa.Bank.{
  max_accounts, Account, Bank, reset_account, init_bank, scan, add_account, get_account,
}
use cmsc125_lab3_sabandal_sa.Bank.Lookup.{
  get_account-IsSlot, IsSlot, IsValid, scan-miss, get_account-of_IsSlot, get_account-eq-scan,
}

length-reset : (accounts : List Account) → length (map reset_account accounts) ≡ length accounts
length-reset [] = refl
length-reset (a ∷ rest) = ap suc (length-reset rest)

-- An entry after the reset of all of them.
pub reset_entry :
    (xs : List Account) (k : ℕ) (a : Account)
    → get_elem? (map reset_account xs) k ≡ some a
    → (b : Account) × (get_elem? xs k ≡ some b) × (a ≡ reset_account b)
reset_entry [] k a h = cc
reset_entry (x ∷ xs) zero a h = (x, refl, ground arith)
reset_entry (x ∷ xs) (suc k) a h = reset_entry xs k a h

-- No account has an identifier or money.
abbrev pub IsBlank : Bank → Type 0
IsBlank bank =
    (k : ℕ) (a : Account)
    → get_elem? bank.accounts k ≡ some a
    → (a.account_id ≡ negsuc 0) × (a.balance_centavos ≡ pos 0)

-- Of any bank whose array has its full size, whatever it holds, `init_bank` makes a valid bank in
-- which no identifier is found, and every entry of the array has the identifier -1 and the balance 0.
pub init_bank-IsValid :
    (bank : Bank)
    → length bank.accounts ≡ max_accounts
    → IsValid (init_bank bank)
      × ((id : ℤ) → get_account (init_bank bank) id ≡ none)
      × IsBlank (init_bank bank)
unfolding init_bank
init_bank-IsValid bank size = (
  record {
    size = length-reset bank.accounts ∙ size;
    bounded = omega arith;
    id_nonneg = λ i a slot. absurd (omega (arith, slot.in_use));
    balance_nonneg = λ i a slot. absurd (omega (arith, slot.in_use));
    balance_int = λ i a slot. absurd (omega (arith, slot.in_use));
    distinct = λ i j a b slot other same. absurd (omega (arith, slot.in_use));
  },
  λ id. elim (Option-cases (get_account (init_bank bank) id)) [
    | inl e ↦ e
    | inr (i, e) ↦
        let (a, slot, same, low) = get_account-IsSlot (init_bank bank) id i e in
        absurd (omega (arith, slot.in_use))
  ],
  λ k a e.
      let (b, entry, same) = reset_entry bank.accounts k a e in
      (ap (λ (x : Account). x.account_id) same, ap (λ (x : Account). x.balance_centavos) same),
)

-- The bank with one account more.
abbrev pub with_account : Bank → ℤ → ℤ → Bank
with_account bank id balance = record bank {
  accounts =
      modify bank.accounts bank.num_accounts
        (λ a. record a { account_id = id; balance_centavos = balance });
  num_accounts = bank.num_accounts + 1;
}

-- What a successful call has checked.
pub record Accepts (bank : Bank) (id balance : ℤ) (bank' : Bank) : Type 0 where
  pub id_low : pos 0 ≤ℤ id
  pub balance_low : pos 0 ≤ℤ balance
  pub room : bank.num_accounts < max_accounts
  pub fresh : scan bank.accounts 0 bank.num_accounts id ≡ none
  pub result : bank' ≡ with_account bank id balance

pub add_account-Accepts :
    (bank : Bank) (id balance : ℤ) (bank' : Bank)
    → add_account bank id balance ≡ some (true, bank')
    → Accepts bank id balance bank'
unfolding add_account
add_account-Accepts bank id balance bank' h =
    elim (Option-cases (scan bank.accounts 0 bank.num_accounts id)) [
      | inl e ↦ record {
        id_low = ground arith;
        balance_low = ground arith;
        room = ground arith;
        fresh = e;
        result = ground arith;
      }
      | inr (i, e) ↦ absurd (ground arith)
    ]

module _ (bank : Bank) (id balance : ℤ) (v : IsValid bank)
    (room : bank.num_accounts < max_accounts) where
  -- An account of the longer bank is an old one, or the new one.
  IsSlot-cases :
      (i : ℕ) (a : Account)
      → IsSlot (with_account bank id balance) i a
      → IsSlot bank i a
        ⊎ ((i ≡ bank.num_accounts) × (a.account_id ≡ id) × (a.balance_centavos ≡ balance))
  IsSlot-cases i a slot = elim (ℕ_discrete bank.num_accounts i) [
    | yes here ↦
        let (b, e) = get_elem?-some bank.accounts bank.num_accounts (omega (arith, v.size)) in
        let put =
          get_elem?-modify_self bank.accounts bank.num_accounts
            (λ a. record a { account_id = id; balance_centavos = balance }) b e in
        let at =
          subst (λ k. get_elem? (with_account bank id balance).accounts k ≡ some a) (sym here)
            slot.entry in
        let same = sym at ∙ put in inr (sym here, ground (arith, same), ground (arith, same))
    | no other ↦ inl (record {
      in_use = omega (arith, slot.in_use);
      entry =
          sym (
            get_elem?-modify_ne bank.accounts bank.num_accounts i
              (λ a. record a { account_id = id; balance_centavos = balance }) other)
          ∙ slot.entry;
    })
  ]

  new-IsSlot :
      (a : Account) × IsSlot (with_account bank id balance) bank.num_accounts a
      × (a.account_id ≡ id)
      × (a.balance_centavos ≡ balance)
  new-IsSlot =
      let (b, e) = get_elem?-some bank.accounts bank.num_accounts (omega (arith, v.size)) in
      (
        record b { account_id = id; balance_centavos = balance },
        record {
          in_use = omega arith;
          entry =
              get_elem?-modify_self bank.accounts bank.num_accounts
                (λ a. record a { account_id = id; balance_centavos = balance }) b e;
        },
        refl,
        refl,
      )

  with_account-IsValid :
      pos 0 ≤ℤ id
      → pos 0 ≤ℤ balance
      → IsInt balance
      → scan bank.accounts 0 bank.num_accounts id ≡ none
      → IsValid (with_account bank id balance)
  with_account-IsValid id_low low int fresh = record {
    size = length-modify bank.accounts bank.num_accounts _ ∙ v.size;
    bounded = omega arith;
    id_nonneg = λ i a slot. elim (IsSlot-cases i a slot) [
      | inl old ↦ v.id_nonneg i a old
      | inr (at, e, e') ↦ rw e id_low
    ];
    balance_nonneg = λ i a slot. elim (IsSlot-cases i a slot) [
      | inl old ↦ v.balance_nonneg i a old
      | inr (at, e, e') ↦ rw e' low
    ];
    balance_int = λ i a slot. elim (IsSlot-cases i a slot) [
      | inl old ↦ v.balance_int i a old
      | inr (at, e, e') ↦ rw e' int
    ];
    distinct = λ i j a b slot other same. elim (IsSlot-cases i a slot) [
      | inl old ↦ elim (IsSlot-cases j b other) [
        | inl old' ↦ v.distinct i j a b old old' same
        | inr (at, e, e') ↦ absurd (
            scan-miss bank.accounts 0 bank.num_accounts id fresh i a old.in_use old.entry
              (same ∙ e))
      ]
      | inr (at, e, e') ↦ elim (IsSlot-cases j b other) [
        | inl old' ↦ absurd (
            scan-miss bank.accounts 0 bank.num_accounts id fresh j b old'.in_use old'.entry
              (sym same ∙ e))
        | inr (at', f, f') ↦ at ∙ sym at'
      ]
    ];
  }

-- Adding an account. From a valid bank, a call of `add_account` with a balance that is an `int`,
-- and that returns true, leaves a valid bank with one account more; a lookup of the new identifier
-- finds its slot, and the account there has the identifier and the balance that were given.
pub add_account-IsValid :
    (bank : Bank) (id balance : ℤ) (bank' : Bank)
    → IsValid bank
    → IsInt balance
    → add_account bank id balance ≡ some (true, bank')
    → IsValid bank'
      × (bank'.num_accounts ≡ bank.num_accounts + 1)
      × (get_account bank' id ≡ some bank.num_accounts)
      × ((a : Account) × IsSlot bank' bank.num_accounts a
          × (a.account_id ≡ id)
          × (a.balance_centavos ≡ balance))
add_account-IsValid bank id balance bank' v int h =
    let ok = add_account-Accepts bank id balance bank' h in
    let valid =
      with_account-IsValid bank id balance v ok.room ok.id_low ok.balance_low int ok.fresh in
    let (a, slot, same, same') = new-IsSlot bank id balance v ok.room in
    rw ok.result (
      valid,
      refl,
      ap (get_account (with_account bank id balance)) (sym same)
          ∙ get_account-of_IsSlot (with_account bank id balance) bank.num_accounts a valid slot,
      (a, slot, same, same'),
    )

-- Why a call is refused.
abbrev pub Refused : Bank → ℤ → ℤ → Type 0
Refused bank id balance =
    (id <ℤ pos 0)
    ⊎ ((balance <ℤ pos 0) ⊎ ((max_accounts ≤ bank.num_accounts) ⊎ (get_account bank id ≢ none)))

-- A call of `add_account` on a valid bank whose mutex is free returns, and if it returns false the
-- bank is as it was, and the identifier or the balance is negative, the bank is full, or it has
-- the identifier already.
pub add_account-refuses :
    (bank : Bank) (id balance : ℤ)
    → IsValid bank
    → bank.bank_lock ≡ false
    → (ok : Bool) × (bank' : Bank) × (add_account bank id balance ≡ some (ok, bank'))
      × (ok ≡ false → (bank' ≡ bank) × Refused bank id balance)
unfolding add_account
add_account-refuses bank id balance v open_ = elim (Bool-cases (ltb_ℤ id (pos 0))) [
  | inl e ↦ (false, bank, ground arith, λ _. (refl, inl (ground arith)))
  | inr id_low ↦ elim (Bool-cases (ltb_ℤ balance (pos 0))) [
    | inl e ↦ (false, bank, ground arith, λ _. (refl, inr (inl (ground arith))))
    | inr low ↦ elim (Bool-cases (leb max_accounts bank.num_accounts)) [
      | inl e ↦ (false, bank, ground arith, λ _. (refl, inr (inr (inl (ground arith)))))
      | inr room ↦ elim (Option-cases (scan bank.accounts 0 bank.num_accounts id)) [
        | inl fresh ↦ (true, with_account bank id balance, ground arith, λ e. absurd (ground arith))
        | inr (i, e) ↦ (
          false,
          bank,
          ground arith,
          λ _. (
            refl,
            inr (inr (inr (λ h. ground (arith, get_account-eq-scan bank id v (ground arith))))),
          ),
        )
      ]
    ]
  ]
]
