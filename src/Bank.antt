-- ===== src/Bank.antt =====
-- include/bank.h and the functions of src/core/bank.c that set a bank up and find an account in it.
-- A pointer to an account is the number of its slot, and NULL is `none`. The pointer to the bank
-- itself is never NULL, since every caller passes the address of the global `bank`.
pub mod Lookup
pub mod Money
pub mod Setup
pub mod Loaded
use cmsc125_lab3_sabandal_sa.Common.{
  ℕ, zero, suc, ◌+◌, ◌-◌, Bool, true, false, ◌&&◌, ◌||◌, Option, none, some, List, [], ◌∷◌, map, ℤ,
  pos, negsuc, pos_part, leb, ltb_ℤ, leb_ℤ, ◌==ℤ◌, if◌then◌else◌, get_elem?, modify, replicate,
}
use cmsc125_lab3_sabandal_sa.RwLock.{RwLock, open_lock}

-- `MAX_ACCOUNTS`
abbrev pub max_accounts : ℕ
max_accounts = 100

pub record Account : Type 0 where
  pub account_id : ℤ
  pub balance_centavos : ℤ
  pub lock : RwLock

-- `bank_lock` tells whether the mutex is held.
pub record Bank : Type 0 where
  pub accounts : List Account
  pub num_accounts : ℕ
  pub bank_lock : Bool

-- A variable of static storage: every byte is zero.
abbrev pub zeroed_bank : Bank
zeroed_bank = record {
  accounts =
      replicate max_accounts
        (record { account_id = pos 0; balance_centavos = pos 0; lock = open_lock });
  num_accounts = 0;
  bank_lock = false;
}

abbrev pub reset_account : Account → Account
reset_account a = record a { account_id = negsuc 0; balance_centavos = pos 0 }

-- The array has `MAX_ACCOUNTS` entries, and the loop resets every one.
unfoldable pub init_bank : Bank → Bank
init_bank bank = record {
  accounts = map reset_account bank.accounts;
  num_accounts = 0;
  bank_lock = false;
}

-- `for (i = 0; i < num_accounts; i++) if (accounts[i].account_id == account_id) …`: the first slot
-- with the identifier, from slot `i` on, `rounds` slots at most.
unfoldable pub scan : List Account → ℕ → ℕ → ℤ → Option ℕ
scan [] i rounds account_id = none
scan (a ∷ rest) i zero account_id = none
scan (a ∷ rest) i (suc rounds) account_id =
    if a.account_id ==ℤ account_id then some i else scan rest (suc i) rounds account_id

abbrev found : Option ℕ → Bool
found none = false
found (some i) = true

-- The result and the bank; `none` if the caller waits for `bank_lock` without end.
unfoldable pub add_account : Bank → ℤ → ℤ → Option (Bool × Bank)
unfolding scan
add_account bank account_id initial_balance =
    if ltb_ℤ account_id (pos 0) || ltb_ℤ initial_balance (pos 0)
    then some (false, bank)
    else if bank.bank_lock
    then none
    else if leb max_accounts bank.num_accounts
    then some (false, bank)
    else if found (scan bank.accounts 0 bank.num_accounts account_id)
    then some (false, bank)
    else some (
      true,
      record bank {
        accounts =
            modify bank.accounts bank.num_accounts
              (λ a. record a { account_id = account_id; balance_centavos = initial_balance });
        num_accounts = bank.num_accounts + 1;
      },
    )

-- `accounts[i].account_id == account_id`; a slot out of the array has no identifier.
abbrev slot_has : List Account → ℕ → ℤ → Bool
slot_has accounts i account_id = elim (get_elem? accounts i) [
  | none ↦ false
  | some a ↦ a.account_id ==ℤ account_id
]

-- The slot `account_id - 1` is in use and holds the account.
unfoldable pub direct_slot : Bank → ℤ → Bool
direct_slot bank account_id =
    ltb_ℤ (pos 0) account_id
    && leb_ℤ account_id (pos bank.num_accounts)
    && slot_has bank.accounts (pos_part account_id - 1) account_id

-- That slot is tried first, then the array is scanned.
unfoldable pub get_account : Bank → ℤ → Option ℕ
unfolding scan direct_slot
get_account bank account_id =
    if ltb_ℤ account_id (pos 0)
    then none
    else if direct_slot bank account_id
    then some (pos_part account_id - 1)
    else scan bank.accounts 0 bank.num_accounts account_id

-- The locks of the accounts in use; the others stay as they are.
unfoldable pub init_locks : List Account → ℕ → List Account
init_locks [] n = []
init_locks (a ∷ rest) zero = a ∷ rest
init_locks (a ∷ rest) (suc n) = record a { lock = open_lock } ∷ init_locks rest n

unfoldable pub init_account_locks : Bank → Bank
unfolding init_locks
init_account_locks bank = record bank { accounts = init_locks bank.accounts bank.num_accounts }
