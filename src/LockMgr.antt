-- ===== src/LockMgr.antt =====
-- src/concurrency/lock_mgr.c. Two accounts are locked in ascending order of their identifiers.
use cmsc125_lab3_sabandal_sa.Common.{
  ℕ, Bool, true, false, not, Option, none, some, ℤ, negsuc, ltb_ℤ, ◌==◌, if◌then◌else◌, get_elem?,
}
use cmsc125_lab3_sabandal_sa.Bank.{Bank}
use cmsc125_lab3_sabandal_sa.Machine.{wrlock, rdlock, unlock, Prog, ret, access, ◌>>◌}

-- `acc->account_id`. No function that runs beside others writes an identifier.
abbrev pub slot_id : Bank → ℕ → ℤ
slot_id bank i = elim (get_elem? bank.accounts i) [ none ↦ negsuc 0 | some a ↦ a.account_id ]

unfoldable pub lock_account : Option ℕ → Prog (Unit {0})
lock_account none = ret tt
lock_account (some acc) = access (wrlock acc)

unfoldable pub unlock_account : Option ℕ → Prog (Unit {0})
unlock_account none = ret tt
unlock_account (some acc) = access (unlock acc)

unfoldable pub read_lock_account : Option ℕ → Prog (Unit {0})
read_lock_account none = ret tt
read_lock_account (some acc) = access (rdlock acc)

unfoldable pub read_unlock_account : Option ℕ → Prog (Unit {0})
read_unlock_account none = ret tt
read_unlock_account (some acc) = access (unlock acc)

-- Both pointers are set, and they differ.
unfoldable pub validate_accounts : Option ℕ → Option ℕ → Bool
validate_accounts none acc2 = false
validate_accounts (some acc1) none = false
validate_accounts (some acc1) (some acc2) = not (acc1 == acc2)

-- `acc1->account_id < acc2->account_id`
abbrev id_below : Bank → Option ℕ → Option ℕ → Bool
id_below bank none acc2 = false
id_below bank (some acc1) none = false
id_below bank (some acc1) (some acc2) = ltb_ℤ (slot_id bank acc1) (slot_id bank acc2)

unfoldable pub lock_accounts_in_order : Bank → Option ℕ → Option ℕ → Prog Bool
unfolding validate_accounts lock_account
lock_accounts_in_order bank acc1 acc2 =
    if not (validate_accounts acc1 acc2)
    then ret false
    else if id_below bank acc1 acc2
    then (lock_account acc1 >> lock_account acc2 >> ret true)
    else (lock_account acc2 >> lock_account acc1 >> ret true)

unfoldable pub unlock_accounts : Option ℕ → Option ℕ → Prog (Unit {0})
unfolding unlock_account
unlock_accounts none acc2 = ret tt
unlock_accounts (some acc1) none = ret tt
unlock_accounts (some acc1) (some acc2) = unlock_account (some acc1) >> unlock_account (some acc2)
