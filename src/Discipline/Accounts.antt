-- ===== src/Discipline/Accounts.antt =====
-- `deposit`, `withdraw` and `get_balance` of src/core/bank.c keep to the logic: they touch a balance
-- only under its lock, give the lock back, and move exactly their amount.
use cmsc125_lab3_sabandal_sa.Common.{
  ℕ, ◌≤◌, ◌<◌, ◌≡◌, refl, inl, inr, true, false, some, ℤ, pos, negsuc, pos_part, arith, ltb_ℤ,
  if◌then◌else◌, Bool-cases, Option-cases,
}
use cmsc125_lab3_sabandal_sa.CInt.{int_half}
use cmsc125_lab3_sabandal_sa.Bank.{Bank, get_account}
use cmsc125_lab3_sabandal_sa.Bank.Lookup.{IsValid, get_account-IsSlot}
use cmsc125_lab3_sabandal_sa.Bank.Money.{
  get_balance, read_balance, deposit, put_in, withdraw, take_out,
}
use cmsc125_lab3_sabandal_sa.Discipline.{IsUsed, Claim, IsFree, Keeps}
use cmsc125_lab3_sabandal_sa.Discipline.Locks.{
  Settled, MayLock-free, slot_in_range, unlock-IsFree, read_unlock-IsFree, add_int_fits,
  sub_int_fits,
}

module _ (bank : Bank) (supply : ℕ) (small : supply < int_half) where
  pub put_in-Keeps :
      (c : Claim) (i : ℕ) (amount : ℕ)
      → IsFree c
      → IsUsed bank i
      → amount ≤ c.purse
      → Keeps bank supply c (put_in (some i) (pos amount)) (λ _ c'. Settled c amount 0 c')
  unfolding put_in
  put_in-Keeps c i amount f lt fits = (
    MayLock-free bank c i f lt,
    λ _ _. (
      (lt, ground arith),
      λ r seen.
          let (low, sum) = add_int_fits r amount seen.nonneg (omega (arith, seen.within)) in
          (
            (
              lt,
              record {
                exclusive = ground arith;
                old = pos_part r;
                current = ground arith;
                nonneg = low;
                covered = omega arith;
              },
            ),
            λ _ _. (
              (lt, ground arith),
              λ _ _. record { free = unlock-IsFree c f i _ _; balance = ground arith },
            ),
          ),
    ),
  )

  pub take_out-Keeps :
      (c : Claim) (i : ℕ) (amount : ℕ)
      → IsFree c
      → IsUsed bank i
      → Keeps bank supply c
          (take_out (some i) (pos amount))
          (λ done c'. Settled c 0 (if done then amount else 0) c')
  unfolding take_out
  take_out-Keeps c i amount f lt = (
    MayLock-free bank c i f lt,
    λ _ _. (
      (lt, ground arith),
      λ r seen. elim (Bool-cases (ltb_ℤ r (pos amount))) [
        | inl short ↦ rw short (
          (lt, ground arith),
          λ _ _. record { free = unlock-IsFree c f i _ _; balance = ground arith },
        )
        | inr enough ↦ rw enough (
          (lt, ground arith),
          λ r' seen'.
              let same : pos_part r' ≡ pos_part r = seen'.again (pos_part r) (ground arith) in
              let (low, difference) =
                sub_int_fits r' amount seen'.nonneg (ground arith) (omega (arith, seen'.within)) in
              (
                (
                  lt,
                  record {
                    exclusive = ground arith;
                    old = pos_part r';
                    current = ground arith;
                    nonneg = low;
                    covered = omega arith;
                  },
                ),
                λ _ _. (
                  (lt, ground arith),
                  λ _ _. record { free = unlock-IsFree c f i _ _; balance = ground arith },
                ),
              ),
        )
      ],
    ),
  )

  pub read_balance-Keeps :
      (c : Claim) (i : ℕ)
      → IsFree c
      → IsUsed bank i
      → Keeps bank supply c (read_balance (some i)) (λ balance c'. Settled c 0 0 c')
  unfolding read_balance
  read_balance-Keeps c i f lt = (
    MayLock-free bank c i f lt,
    λ _ _. (
      (lt, ground arith),
      λ r seen. (
        (lt, ground arith),
        λ _ _. record { free = read_unlock-IsFree c f i _ _; balance = refl },
      ),
    ),
  )

  -- A deposit into an account of the bank takes its amount from the purse; a negative one is void.
  pub deposit-Keeps :
      (c : Claim) (id : ℤ) (i : ℕ) (amount : ℤ)
      → IsValid bank
      → get_account bank id ≡ some i
      → IsFree c
      → pos_part amount ≤ c.purse
      → Keeps bank supply c (deposit bank id amount) (λ _ c'. Settled c (pos_part amount) 0 c')
  unfolding deposit
  deposit-Keeps c id i (pos n) v e f fits =
      let void : ltb_ℤ (pos n) (pos 0) ≡ false = ground arith in
      let (a, slot, _, _) = get_account-IsSlot bank id i e in
      rw (void, e) (put_in-Keeps c i n f (slot_in_range bank i v slot.in_use) fits)
  deposit-Keeps c id i (negsuc n) v e f fits =
      let void : ltb_ℤ (negsuc n) (pos 0) ≡ true = ground arith in
      rw void (record { free = f; balance = refl })

  -- A withdrawal puts its amount into the purse if it succeeds, and nothing otherwise.
  pub withdraw-Keeps :
      (c : Claim) (id : ℤ) (amount : ℤ)
      → IsValid bank
      → IsFree c
      → Keeps bank supply c
          (withdraw bank id amount)
          (λ done c'. Settled c 0 (if done then pos_part amount else 0) c')
  unfolding withdraw
  withdraw-Keeps c id (pos n) v f =
      let void : ltb_ℤ (pos n) (pos 0) ≡ false = ground arith in
      elim (Option-cases (get_account bank id)) [
        | inl e ↦ rw (void, e) (record { free = f; balance = refl })
        | inr (i, e) ↦
            let (a, slot, _, _) = get_account-IsSlot bank id i e in
            rw (void, e) (take_out-Keeps c i n f (slot_in_range bank i v slot.in_use))
      ]
  withdraw-Keeps c id (negsuc n) v f =
      let void : ltb_ℤ (negsuc n) (pos 0) ≡ true = ground arith in
      rw void (record { free = f; balance = refl })

  -- An inquiry moves nothing.
  pub get_balance-Keeps :
      (c : Claim) (id : ℤ)
      → IsValid bank
      → IsFree c
      → Keeps bank supply c (get_balance bank id) (λ _ c'. Settled c 0 0 c')
  unfolding get_balance
  get_balance-Keeps c id v f = elim (Option-cases (get_account bank id)) [
    | inl e ↦ rw e (record { free = f; balance = refl })
    | inr (i, e) ↦
        let (a, slot, _, _) = get_account-IsSlot bank id i e in
        rw e (read_balance-Keeps c i f (slot_in_range bank i v slot.in_use))
  ]
