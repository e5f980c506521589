-- ===== src/Serial/Money.antt =====
-- The functions of src/core/bank.c that move money, when no other thread is about: what each does to
-- the accounts, its locks taken and released again.
use cmsc125_lab3_sabandal_sa.Common.{
  ℕ, ◌≡◌, refl, sym, ap, ◌∙◌, Bool, true, false, some, ℤ, ltb_ℤ, if◌then◌else◌, get_elem?, modify,
}
use cmsc125_lab3_sabandal_sa.CInt.{add_int, sub_int}
use cmsc125_lab3_sabandal_sa.RwLock.{RwLock, open_lock}
use cmsc125_lab3_sabandal_sa.Bank.{Account}
use cmsc125_lab3_sabandal_sa.Bank.Money.{read_balance, sub_balance, put_in, take_out}
use cmsc125_lab3_sabandal_sa.LockMgr.{
  lock_account, unlock_account, read_lock_account, read_unlock_account,
}
use cmsc125_lab3_sabandal_sa.Machine.{
  Shared, wrlock, rdlock, unlock, load_balance, store_balance, ret, exec, ◌>>◌,
}
use cmsc125_lab3_sabandal_sa.Machine.Exec.{exec-call, exec-ret}
use cmsc125_lab3_sabandal_sa.Serial.Cells.{
  with_accounts, written, being_read, put, modify-put, wrlock-step, rdlock-step, put_same, at_load,
  at_store, at_unlock, at_read_unlock, with_balance,
}

-- The slot of an account gets a new balance.
abbrev pub settle : ℕ → ℤ → Shared → Shared
settle i v m = with_accounts (modify m.bank.accounts i (with_balance v)) m

-- One account, when its lock is free.
module _ (m : Shared) (i : ℕ) (a : Account) (entry : get_elem? m.bank.accounts i ≡ some a)
    (idle : a.lock ≡ open_lock) where
  abbrev pub held : ℤ → RwLock → Account
  held v l = record a { balance_centavos = v; lock = l }

  -- With its lock free again.
  pub settled : (v : ℤ) → put i (held v open_lock) m ≡ settle i v m
  settled v =
      ap (λ l. put i (held v l) m) (sym idle) ∙ sym (modify-put m i a entry (with_balance v))

  pub unchanged : put i (held a.balance_centavos open_lock) m ≡ m
  unchanged = ap (λ l. put i (held a.balance_centavos l) m) (sym idle) ∙ put_same m i a entry

  pub put_in-end :
      (amount : ℤ)
      → exec (put_in (some i) amount) m ≡ some (tt, settle i (add_int a.balance_centavos amount) m)
  unfolding put_in lock_account unlock_account
  put_in-end amount =
      let b = a.balance_centavos in
      exec-call (wrlock i) _ m (put i (held b written) m) tt (wrlock-step m i a entry idle)
      ∙ exec-call (load_balance i) _ _ _ b (at_load m i a entry (held b written))
      ∙ exec-call (store_balance i (add_int b amount)) _ _ _ tt
          (at_store m i a entry (held b written) (add_int b amount))
      ∙ exec-call (unlock i) _ _ _ tt (at_unlock m i a entry (held (add_int b amount) written) refl)
      ∙ exec-ret tt _
      ∙ ap (λ x. some (tt, x)) (settled (add_int b amount))

  pub read_balance-end : exec (read_balance (some i)) m ≡ some (a.balance_centavos, m)
  unfolding read_balance read_lock_account read_unlock_account
  read_balance-end =
      let b = a.balance_centavos in
      exec-call (rdlock i) _ m (put i (held b being_read) m) tt (rdlock-step m i a entry idle)
      ∙ exec-call (load_balance i) _ _ _ b (at_load m i a entry (held b being_read))
      ∙ exec-call (unlock i) _ _ _ tt (at_read_unlock m i a entry (held b being_read) refl)
      ∙ exec-ret b _
      ∙ ap (λ x. some (b, x)) unchanged

  -- The test of a withdrawal, and what follows it.
  take_out-open :
      (amount : ℤ) (short : Bool)
      → ltb_ℤ a.balance_centavos amount ≡ short
      → exec (take_out (some i) amount) m
        ≡ exec
            (if short
              then (unlock_account (some i) >> ret false)
              else (sub_balance i amount >> unlock_account (some i) >> ret true))
            (put i (held a.balance_centavos written) m)
  unfolding take_out lock_account
  take_out-open amount short h =
      let b = a.balance_centavos in
      exec-call (wrlock i) _ m (put i (held b written) m) tt (wrlock-step m i a entry idle)
      ∙ exec-call (load_balance i) _ _ _ b (at_load m i a entry (held b written))
      ∙ ap
          (λ t.
            exec
              (if t
                then (unlock_account (some i) >> ret false)
                else (sub_balance i amount >> unlock_account (some i) >> ret true))
              (put i (held b written) m))
          h

  pub take_out-short :
      (amount : ℤ)
      → ltb_ℤ a.balance_centavos amount ≡ true
      → exec (take_out (some i) amount) m ≡ some (false, m)
  unfolding unlock_account
  take_out-short amount h =
      take_out-open amount true h
      ∙ exec-call (unlock i) _ _ _ tt (at_unlock m i a entry (held a.balance_centavos written) refl)
      ∙ exec-ret false _
      ∙ ap (λ x. some (false, x)) unchanged

  pub take_out-end :
      (amount : ℤ)
      → ltb_ℤ a.balance_centavos amount ≡ false
      → exec (take_out (some i) amount) m
        ≡ some (true, settle i (sub_int a.balance_centavos amount) m)
  unfolding unlock_account
  take_out-end amount h =
      let b = a.balance_centavos in
      take_out-open amount false h
      ∙ exec-call (load_balance i) _ _ _ b (at_load m i a entry (held b written))
      ∙ exec-call (store_balance i (sub_int b amount)) _ _ _ tt
          (at_store m i a entry (held b written) (sub_int b amount))
      ∙ exec-call (unlock i) _ _ _ tt (at_unlock m i a entry (held (sub_int b amount) written) refl)
      ∙ exec-ret true _
      ∙ ap (λ x. some (true, x)) (settled (sub_int b amount))
