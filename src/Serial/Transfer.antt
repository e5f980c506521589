-- ===== src/Serial/Transfer.antt =====
-- `transfer` of src/core/bank.c when no other thread is about: both accounts are locked in either
-- order, and the outcome does not depend on it.
use cmsc125_lab3_sabandal_sa.Common.{
  ℕ, ◌≡◌, refl, sym, ap, ◌∙◌, ◌≢◌, inl, inr, true, false, some, ltb_ℤ, if◌then◌else◌, arith, ◌==◌,
  Bool, not, Bool-cases, get_elem?, ℤ,
}
use cmsc125_lab3_sabandal_sa.CInt.{add_int, sub_int}
use cmsc125_lab3_sabandal_sa.RwLock.{RwLock, open_lock}
use cmsc125_lab3_sabandal_sa.Bank.{Account, Bank}
use cmsc125_lab3_sabandal_sa.Bank.Money.{sub_balance, add_balance, move_locked, move}
use cmsc125_lab3_sabandal_sa.LockMgr.{
  slot_id, lock_account, unlock_account, validate_accounts, lock_accounts_in_order, unlock_accounts,
}
use cmsc125_lab3_sabandal_sa.Machine.{
  Shared, wrlock, unlock, load_balance, store_balance, Action, Reply, perform, Prog, ret, exec,
  ◌>>=◌, ◌>>◌,
}
use cmsc125_lab3_sabandal_sa.Machine.Exec.{exec-call, exec-bind, exec-ret}
use cmsc125_lab3_sabandal_sa.Serial.Money.{settle, settled, unchanged}
use cmsc125_lab3_sabandal_sa.Serial.Cells.{
  written, put, wrlock-step, put-other, put_comm, at_load, at_store, at_unlock,
}

module _ (m : Shared) (i j : ℕ) (a b : Account) (i_entry : get_elem? m.bank.accounts i ≡ some a)
    (j_entry : get_elem? m.bank.accounts j ≡ some b) (ne : i ≢ j) where
  abbrev both : Account → Account → Shared
  both x y = put i x (put j y m)

  other_entry : (y : Account) → get_elem? (put j y m).bank.accounts i ≡ some a
  other_entry y = put-other m j b j_entry y i (λ e. ne (sym e)) ∙ i_entry

  first_entry : (x : Account) → get_elem? (put i x m).bank.accounts j ≡ some b
  first_entry x = put-other m i a i_entry x j ne ∙ j_entry

  -- An access to slot `j`, which is set after slot `i`.
  at_second :
      (act : Action) (r : Reply act) (x y z : Account)
      → perform act (put j y (put i x m)) ≡ some (r, put j z (put i x m))
      → perform act (both x y) ≡ some (r, both x z)
  at_second act r x y z h =
      ap (perform act) (put_comm m i j x y ne)
      ∙ h
      ∙ ap (λ s. some (r, s)) (sym (put_comm m i j x z ne))

  module _ (i_idle : a.lock ≡ open_lock) (j_idle : b.lock ≡ open_lock) where
    abbrev from_with : ℤ → RwLock → Account
    from_with v l = record a { balance_centavos = v; lock = l }

    abbrev to_with : ℤ → RwLock → Account
    to_with v l = record b { balance_centavos = v; lock = l }

    abbrev locked : Shared
    locked = both (from_with a.balance_centavos written) (to_with b.balance_centavos written)

    lock_first :
        exec (lock_account (some i) >> lock_account (some j) >> ret true) m ≡ some (true, locked)
    unfolding lock_account
    lock_first =
        exec-call (wrlock i) _ m (put i (from_with a.balance_centavos written) m) tt
          (wrlock-step m i a i_entry i_idle)
        ∙ exec-call (wrlock j) _ _
            (put j (to_with b.balance_centavos written)
              (put i (from_with a.balance_centavos written) m))
            tt
            (wrlock-step (put i (from_with a.balance_centavos written) m) j b
              (first_entry (from_with a.balance_centavos written)) j_idle)
        ∙ exec-ret true _
        ∙ ap (λ s. some (true, s))
            (sym (
              put_comm m i j (from_with a.balance_centavos written)
                (to_with b.balance_centavos written) ne))

    lock_second :
        exec (lock_account (some j) >> lock_account (some i) >> ret true) m ≡ some (true, locked)
    unfolding lock_account
    lock_second =
        exec-call (wrlock j) _ m (put j (to_with b.balance_centavos written) m) tt
          (wrlock-step m j b j_entry j_idle)
        ∙ exec-call (wrlock i) _ _ locked tt (
            wrlock-step (put j (to_with b.balance_centavos written) m) i a
              (other_entry (to_with b.balance_centavos written)) i_idle)
        ∙ exec-ret true _

    lock_accounts_in_order-end :
        (bank : Bank) → exec (lock_accounts_in_order bank (some i) (some j)) m ≡ some (true, locked)
    unfolding lock_accounts_in_order validate_accounts
    lock_accounts_in_order-end bank =
        let differ : (i == j) ≡ false = ground arith in
        elim (Bool-cases (ltb_ℤ (slot_id bank i) (slot_id bank j))) [
          | inl e ↦ rw (differ, e) lock_first
          | inr e ↦ rw (differ, e) lock_second
        ]

    unlock_both :
        (v w : ℤ) (ok : Bool)
        → exec
            (unlock_accounts (some i) (some j) >> ret ok)
            (both (from_with v written) (to_with w written))
          ≡ some (ok, both (from_with v open_lock) (to_with w open_lock))
    unfolding unlock_accounts unlock_account
    unlock_both v w ok =
        exec-call (unlock i) _ _ (both (from_with v open_lock) (to_with w written)) tt (
          at_unlock (put j (to_with w written) m) i a (other_entry (to_with w written))
            (from_with v written) refl)
        ∙ exec-call (unlock j) _ _ _ tt (
            at_second (unlock j) tt (from_with v open_lock) (to_with w written)
              (to_with w open_lock)
              (at_unlock (put i (from_with v open_lock) m) j b (first_entry (from_with v open_lock))
                (to_with w written) refl))
        ∙ exec-ret ok _

    restored :
        both (from_with a.balance_centavos open_lock) (to_with b.balance_centavos open_lock) ≡ m
    restored =
        ap (put i (from_with a.balance_centavos open_lock)) (unchanged m j b j_entry j_idle)
        ∙ unchanged m i a i_entry i_idle

    moved :
        (v w : ℤ) → both (from_with v open_lock) (to_with w open_lock) ≡ settle j w (settle i v m)
    moved v w =
        put_comm m i j (from_with v open_lock) (to_with w open_lock) ne
        ∙ settled (put i (from_with v open_lock) m) j b (first_entry (from_with v open_lock)) j_idle
            w
        ∙ ap (settle j w) (settled m i a i_entry i_idle v)

    move_locked-open :
        (amount : ℤ) (short : Bool)
        → ltb_ℤ a.balance_centavos amount ≡ short
        → exec (move_locked (some i) (some j) amount) locked
          ≡ exec
              (if short then (unlock_accounts (some i) (some j) >> ret false) else do
                sub_balance i amount
                add_balance j amount
                unlock_accounts (some i) (some j)
                ret true)
              locked
    unfolding move_locked
    move_locked-open amount short h =
        exec-call (load_balance i) _ locked locked a.balance_centavos (
          at_load (put j (to_with b.balance_centavos written) m) i a
            (other_entry (to_with b.balance_centavos written))
            (from_with a.balance_centavos written))
        ∙ ap
            (λ t.
              exec
                (if t then (unlock_accounts (some i) (some j) >> ret false) else do
                  sub_balance i amount
                  add_balance j amount
                  unlock_accounts (some i) (some j)
                  ret true)
                locked)
            h

    move_locked-end :
        (amount : ℤ)
        → ltb_ℤ a.balance_centavos amount ≡ false
        → exec (move_locked (some i) (some j) amount) locked
          ≡ some (
            true,
            settle j
                (add_int b.balance_centavos amount)
                (settle i (sub_int a.balance_centavos amount) m),
          )
    move_locked-end amount h =
        let v = sub_int a.balance_centavos amount in
        let w = add_int b.balance_centavos amount in
        let to = to_with b.balance_centavos written in
        let from = from_with a.balance_centavos written in
        move_locked-open amount false h
        ∙ exec-call (load_balance i) _ locked locked a.balance_centavos
            (at_load (put j to m) i a (other_entry to) from)
        ∙ exec-call (store_balance i v) _ locked (both (from_with v written) to) tt
            (at_store (put j to m) i a (other_entry to) from v)
        ∙ exec-call (load_balance j) _ _ (both (from_with v written) to) b.balance_centavos (
            at_second (load_balance j) b.balance_centavos (from_with v written) to to
              (at_load (put i (from_with v written) m) j b (first_entry (from_with v written)) to))
        ∙ exec-call (store_balance j w) _ _ (both (from_with v written) (to_with w written)) tt (
            at_second (store_balance j w) tt (from_with v written) to (to_with w written) (
              at_store (put i (from_with v written) m) j b (first_entry (from_with v written)) to
                w))
        ∙ unlock_both v w true
        ∙ ap (λ s. some (true, s)) (moved v w)

    abbrev after_locks : ℤ → Bool → Prog Bool
    after_locks amount ok = if not ok then ret false else move_locked (some i) (some j) amount

    move-open :
        (bank : Bank) (amount : ℤ)
        → exec (move bank (some i) (some j) amount) m
          ≡ exec (move_locked (some i) (some j) amount) locked
    unfolding move validate_accounts
    move-open bank amount =
        let differ : (i == j) ≡ false = ground arith in
        ap
          (λ t.
            exec
              (if not (not t)
                then ret false
                else (lock_accounts_in_order bank (some i) (some j) >>= after_locks amount))
              m)
          differ
        ∙ exec-bind (lock_accounts_in_order bank (some i) (some j)) (after_locks amount) m locked
            true (lock_accounts_in_order-end bank)

    pub move-short :
        (bank : Bank) (amount : ℤ)
        → ltb_ℤ a.balance_centavos amount ≡ true
        → exec (move bank (some i) (some j) amount) m ≡ some (false, m)
    move-short bank amount h =
        move-open bank amount
        ∙ move_locked-open amount true h
        ∙ unlock_both a.balance_centavos b.balance_centavos false
        ∙ ap (λ s. some (false, s)) restored

    pub move-end :
        (bank : Bank) (amount : ℤ)
        → ltb_ℤ a.balance_centavos amount ≡ false
        → exec (move bank (some i) (some j) amount) m
          ≡ some (
            true,
            settle j
                (add_int b.balance_centavos amount)
                (settle i (sub_int a.balance_centavos amount) m),
          )
    move-end bank amount h = move-open bank amount ∙ move_locked-end amount h
