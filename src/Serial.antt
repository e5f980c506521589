-- ===== src/Serial.antt =====
-- What a transaction of src/core/transaction.c does to the bank when no other thread is about, told
-- without locks, slots and semaphores: balances are a function of the identifier, and a transaction
-- is a fold over its operations. `Serial/Refinement` relates it to `execute_transaction`.
pub mod Slots
pub mod Pool
pub mod Unload
pub mod Cells
pub mod Money
pub mod Transfer
pub mod Mirror
pub mod Loading
pub mod Operations
pub mod Refinement
pub mod Room
pub mod Alone
pub mod Clock
pub mod Schedule
use cmsc125_lab3_sabandal_sa.Common.{
  ℕ, Bool, true, false, ◌||◌, Option, none, some, List, [], ◌∷◌, ℤ, pos, leb, ltb_ℤ, ◌==ℤ◌,
  if◌then◌else◌, length,
}
use cmsc125_lab3_sabandal_sa.CInt.{add_int, sub_int}
use cmsc125_lab3_sabandal_sa.BufferPool.{buffer_pool_size}
use cmsc125_lab3_sabandal_sa.Machine.{Printed}
use cmsc125_lab3_sabandal_sa.Transaction.{
  OpType, op_deposit, op_withdraw, op_transfer, op_balance, Operation, TxStatus, tx_committed,
  tx_aborted,
}

-- The balance of each account that there is, and what has been printed.
pub record Ledger : Type 0 where
  pub balances : ℤ → Option ℤ
  pub printed : List Printed

abbrev pub set_balance : Ledger → ℤ → ℤ → Ledger
set_balance l id v = record l {
  balances = λ other. if id ==ℤ other then some v else l.balances other;
}

-- How often an account is among those a transaction has loaded.
abbrev pub one : ℤ → ℤ → ℕ
one id other = if id ==ℤ other then 1 else 0

abbrev pub is_among : List ℤ → ℤ → Bool
is_among [] id = false
is_among (a ∷ rest) id = if a ==ℤ id then true else is_among rest id

-- One account more; the flag is false if there is no such account, and the whole is `none` if the
-- pool has no room for it.
abbrev pub admit : Ledger → List ℤ → ℤ → Option (Bool × List ℤ)
admit l loaded id = if is_among loaded id then some (true, loaded) else elim (l.balances id) [
  | none ↦ some (false, loaded)
  | some b ↦ if leb buffer_pool_size (length loaded) then none else some (true, id ∷ loaded)
]

abbrev pub and_then : {A B : Type 0} → Option A → (A → Option B) → Option B
and_then none f = none
and_then (some x) f = f x

-- The accounts that an operation works on.
abbrev pub admit_for : Ledger → List ℤ → Operation → OpType → Option (Bool × List ℤ)
admit_for l loaded op op_transfer =
    and_then (admit l loaded op.account_id)
      λ (ok, loaded'). if ok then admit l loaded' op.target_account else some (false, loaded')
admit_for l loaded op _ = admit l loaded op.account_id

abbrev pub deposit_to : Ledger → ℤ → ℤ → Option ℤ → Bool × Ledger
deposit_to l id amount none = (true, l)
deposit_to l id amount (some b) =
    if ltb_ℤ amount (pos 0) then (true, l) else (true, set_balance l id (add_int b amount))

abbrev pub withdraw_from : Ledger → ℤ → ℤ → Option ℤ → Bool × Ledger
withdraw_from l id amount none = (false, l)
withdraw_from l id amount (some b) =
    if ltb_ℤ amount (pos 0) || ltb_ℤ b amount
    then (false, l)
    else (true, set_balance l id (sub_int b amount))

abbrev pub transfer_between : Ledger → ℤ → ℤ → ℤ → Option ℤ → Option ℤ → Bool × Ledger
transfer_between l id target amount none to_balance = (false, l)
transfer_between l id target amount (some b) none = (false, l)
transfer_between l id target amount (some b) (some d) =
    if (ltb_ℤ amount (pos 0) || id ==ℤ target) || ltb_ℤ b amount
    then (false, l)
    else (true, set_balance (set_balance l id (sub_int b amount)) target (add_int d amount))

abbrev pub inquire : Ledger → ℤ → ℤ → Option ℤ → Bool × Ledger
inquire l tx_id id none = (false, l)
inquire l tx_id id (some b) = if ltb_ℤ b (pos 0) then (false, l) else (
  true,
  record l { printed = record { tx_id = tx_id; account_id = id; balance = b } ∷ l.printed },
)

-- An operation on accounts that are loaded: whether it succeeds, and the ledger after it.
unfoldable pub apply_operation : ℤ → Ledger → Operation → OpType → Bool × Ledger
apply_operation tx_id l op op_deposit =
    deposit_to l op.account_id op.amount_centavos (l.balances op.account_id)
apply_operation tx_id l op op_withdraw =
    withdraw_from l op.account_id op.amount_centavos (l.balances op.account_id)
apply_operation tx_id l op op_transfer =
    transfer_between l op.account_id op.target_account op.amount_centavos (l.balances op.account_id)
      (l.balances op.target_account)
apply_operation tx_id l op op_balance = inquire l tx_id op.account_id (l.balances op.account_id)

abbrev pub after_operation :
    Bool × Ledger → (Ledger → Option (TxStatus × Ledger)) → Option (TxStatus × Ledger)
after_operation (true, l) go_on = go_on l
after_operation (false, l) go_on = some (tx_aborted, l)

-- The transaction stops at the first operation that fails, and keeps what was done before. `none`
-- if it needs an account for which the pool has no room, and then it never ends.
unfoldable pub run_ledger : ℤ → List Operation → List ℤ → Ledger → Option (TxStatus × Ledger)
unfolding apply_operation
run_ledger tx_id [] loaded l = some (tx_committed, l)
run_ledger tx_id (op ∷ ops) loaded l = and_then (admit_for l loaded op op.type) λ (ok, loaded').
    if ok
    then after_operation (apply_operation tx_id l op op.type) (run_ledger tx_id ops loaded')
    else some (tx_aborted, l)
