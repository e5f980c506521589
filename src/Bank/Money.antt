-- ===== src/Bank/Money.antt =====
-- The functions of src/core/bank.c that threads call: each finds its accounts, takes their locks,
-- and reads or writes the balances. The bank is read here for its slots' identifiers only, which
-- stay fixed once the accounts are loaded; balances and locks are those of the shared memory.
use cmsc125_lab3_sabandal_sa.Common.{
  ℕ, Bool, true, false, not, ◌||◌, Option, none, some, ℤ, pos, negsuc, ltb_ℤ, ◌==ℤ◌, if◌then◌else◌,
}
use cmsc125_lab3_sabandal_sa.CInt.{add_int, sub_int}
use cmsc125_lab3_sabandal_sa.Bank.{Bank, get_account}
use cmsc125_lab3_sabandal_sa.Machine.{load_balance, store_balance, Prog, ret, access, ◌>>=◌, ◌>>◌}
use cmsc125_lab3_sabandal_sa.LockMgr.{
  lock_account, unlock_account, read_lock_account, read_unlock_account, validate_accounts,
  lock_accounts_in_order, unlock_accounts,
}

unfoldable pub read_balance : Option ℕ → Prog ℤ
unfolding read_lock_account read_unlock_account
read_balance none = ret (negsuc 0)
read_balance (some acc) = do
  read_lock_account (some acc)
  balance ← access (load_balance acc)
  read_unlock_account (some acc)
  ret balance

unfoldable pub get_balance : Bank → ℤ → Prog ℤ
unfolding read_balance
get_balance bank account_id = read_balance (get_account bank account_id)

-- `acc->balance_centavos += amount`, and `-=`
abbrev pub add_balance : ℕ → ℤ → Prog (Unit {0})
add_balance acc amount = do
  v ← access (load_balance acc)
  access (store_balance acc (add_int v amount))

abbrev pub sub_balance : ℕ → ℤ → Prog (Unit {0})
sub_balance acc amount = do
  v ← access (load_balance acc)
  access (store_balance acc (sub_int v amount))

unfoldable pub put_in : Option ℕ → ℤ → Prog (Unit {0})
unfolding lock_account unlock_account
put_in none amount = ret tt
put_in (some acc) amount = do
  lock_account (some acc)
  add_balance acc amount
  unlock_account (some acc)

unfoldable pub deposit : Bank → ℤ → ℤ → Prog (Unit {0})
unfolding put_in
deposit bank account_id amount =
    if ltb_ℤ amount (pos 0) then ret tt else put_in (get_account bank account_id) amount

unfoldable pub take_out : Option ℕ → ℤ → Prog Bool
unfolding lock_account unlock_account
take_out none amount = ret false
take_out (some acc) amount = do
  lock_account (some acc)
  balance ← access (load_balance acc)
  if ltb_ℤ balance amount
      then (unlock_account (some acc) >> ret false)
      else (sub_balance acc amount >> unlock_account (some acc) >> ret true)

unfoldable pub withdraw : Bank → ℤ → ℤ → Prog Bool
unfolding take_out
withdraw bank account_id amount =
    if ltb_ℤ amount (pos 0) then ret false else take_out (get_account bank account_id) amount

-- The part of `transfer` that holds both locks.
unfoldable pub move_locked : Option ℕ → Option ℕ → ℤ → Prog Bool
unfolding unlock_accounts
move_locked none to_acc amount = ret false
move_locked (some from_acc) none amount = ret false
move_locked (some from_acc) (some to_acc) amount = do
  balance ← access (load_balance from_acc)
  if ltb_ℤ balance amount then (unlock_accounts (some from_acc) (some to_acc) >> ret false) else do
    sub_balance from_acc amount
    add_balance to_acc amount
    unlock_accounts (some from_acc) (some to_acc)
    ret true

unfoldable pub move : Bank → Option ℕ → Option ℕ → ℤ → Prog Bool
unfolding validate_accounts lock_accounts_in_order move_locked
move bank from_acc to_acc amount = if not (validate_accounts from_acc to_acc) then ret false else do
  locked ← lock_accounts_in_order bank from_acc to_acc
  if not locked then ret false else move_locked from_acc to_acc amount

unfoldable pub transfer : Bank → ℤ → ℤ → ℤ → Prog Bool
unfolding move
transfer bank from_id to_id amount =
    if ltb_ℤ amount (pos 0) || from_id ==ℤ to_id
    then ret false
    else move bank (get_account bank from_id) (get_account bank to_id) amount
