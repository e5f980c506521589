-- ===== src/Transaction/Execute.antt =====
-- `execute_transaction` of src/core/transaction.c, the code of a worker thread, with its helpers.
-- The transaction record is its own thread's until `main` joins the thread, so it is handed along.
-- Debug messages are left out; the line that a balance inquiry prints is recorded.
use cmsc125_lab3_sabandal_sa.Common.{
  ℕ, ◌*◌, Bool, true, false, Option, none, some, List, [], ◌∷◌, ℤ, pos, leb, ltb_ℤ, ◌==ℤ◌,
  if◌then◌else◌, length, take,
}
use cmsc125_lab3_sabandal_sa.CInt.{sub_int}
use cmsc125_lab3_sabandal_sa.Timer.{wait_until_tick}
use cmsc125_lab3_sabandal_sa.Bank.{Bank, get_account}
use cmsc125_lab3_sabandal_sa.Bank.Money.{get_balance, deposit, withdraw, transfer}
use cmsc125_lab3_sabandal_sa.BufferPool.Calls.{load_account, unload_account}
use cmsc125_lab3_sabandal_sa.Machine.{read_tick, print_balance, Prog, ret, access, ◌>>=◌, ◌>>◌}
use cmsc125_lab3_sabandal_sa.Transaction.{
  max_ops_per_tx, OpType, op_deposit, op_withdraw, op_transfer, op_balance, Operation, tx_running,
  tx_committed, tx_aborted, Transaction,
}

-- `MAX_LOADED_ACCOUNTS_PER_TX`
abbrev pub max_loaded_accounts : ℕ
max_loaded_accounts = max_ops_per_tx * 2

-- The tick is read under `tick_lock`.
unfoldable pub record_transaction_end : Transaction → Prog Transaction
record_transaction_end tx = do now ← access read_tick; ret (record tx { actual_end = now })

-- The accounts that a transaction has loaded, the newest first: the array
-- `loaded_accounts[0 .. loaded_count - 1]` from its end.
unfoldable pub transaction_has_loaded_account : List ℤ → ℤ → Bool
transaction_has_loaded_account [] account_id = false
transaction_has_loaded_account (a ∷ loaded) account_id =
    if a ==ℤ account_id then true else transaction_has_loaded_account loaded account_id

unfoldable pub load_found : Bank → List ℤ → ℤ → Option ℕ → Prog (Bool × List ℤ)
load_found bank loaded account_id none = ret (false, loaded)
load_found bank loaded account_id (some account) = do
  load_account bank (some account)
  ret (true, account_id ∷ loaded)

unfoldable pub load_account_for_transaction : Bank → List ℤ → ℤ → Prog (Bool × List ℤ)
unfolding load_found transaction_has_loaded_account
load_account_for_transaction bank loaded account_id =
    if transaction_has_loaded_account loaded account_id
    then ret (true, loaded)
    else if leb max_loaded_accounts (length loaded)
    then ret (false, loaded)
    else load_found bank loaded account_id (get_account bank account_id)

unfoldable pub unload_transaction_accounts : List ℤ → Prog (Unit {0})
unload_transaction_accounts [] = ret tt
unload_transaction_accounts (a ∷ loaded) = unload_account a >> unload_transaction_accounts loaded

unfoldable pub abort_transaction : Transaction → List ℤ → Prog Transaction
unfolding record_transaction_end unload_transaction_accounts
abort_transaction tx loaded = do
  tx' ← record_transaction_end (record tx { status = tx_aborted })
  unload_transaction_accounts loaded
  ret tx'

-- `load(a) || load(b)` as the transfer case has it: the second only if the first succeeds.
unfoldable pub load_both : Bank → List ℤ → ℤ → ℤ → Prog (Bool × List ℤ)
unfolding load_account_for_transaction
load_both bank loaded from_id to_id = do
  (ok, loaded') ← load_account_for_transaction bank loaded from_id
  if ok then load_account_for_transaction bank loaded' to_id else ret (false, loaded')

unfoldable pub perform_deposit : Bank → Operation → Bool × List ℤ → Prog (Bool × List ℤ)
perform_deposit bank op (false, loaded) = ret (false, loaded)
perform_deposit bank op (true, loaded) = do
  deposit bank op.account_id op.amount_centavos
  ret (true, loaded)

unfoldable pub perform_withdraw : Bank → Operation → Bool × List ℤ → Prog (Bool × List ℤ)
perform_withdraw bank op (false, loaded) = ret (false, loaded)
perform_withdraw bank op (true, loaded) = do
  done ← withdraw bank op.account_id op.amount_centavos
  ret (done, loaded)

unfoldable pub perform_transfer : Bank → Operation → Bool × List ℤ → Prog (Bool × List ℤ)
perform_transfer bank op (false, loaded) = ret (false, loaded)
perform_transfer bank op (true, loaded) = do
  done ← transfer bank op.account_id op.target_account op.amount_centavos
  ret (done, loaded)

unfoldable pub perform_balance : Bank → ℤ → Operation → Bool × List ℤ → Prog (Bool × List ℤ)
perform_balance bank tx_id op (false, loaded) = ret (false, loaded)
perform_balance bank tx_id op (true, loaded) = do
  balance ← get_balance bank op.account_id
  if ltb_ℤ balance (pos 0) then ret (false, loaded) else do
    access (print_balance (record { tx_id = tx_id; account_id = op.account_id; balance = balance }))
    ret (true, loaded)

-- One round of the loop: the flag says that the transaction goes on.
unfoldable pub run_operation : Bank → ℤ → Operation → OpType → List ℤ → Prog (Bool × List ℤ)
unfolding load_account_for_transaction load_both perform_deposit perform_withdraw perform_transfer
    perform_balance
run_operation bank tx_id op op_deposit loaded =
    load_account_for_transaction bank loaded op.account_id >>= perform_deposit bank op
run_operation bank tx_id op op_withdraw loaded =
    load_account_for_transaction bank loaded op.account_id >>= perform_withdraw bank op
run_operation bank tx_id op op_transfer loaded =
    load_both bank loaded op.account_id op.target_account >>= perform_transfer bank op
run_operation bank tx_id op op_balance loaded =
    load_account_for_transaction bank loaded op.account_id >>= perform_balance bank tx_id op

unfoldable pub commit_transaction : Transaction → List ℤ → Prog Transaction
unfolding record_transaction_end unload_transaction_accounts
commit_transaction tx loaded = do
  tx' ← record_transaction_end tx
  unload_transaction_accounts loaded
  ret (record tx' { status = tx_committed })

-- The loop over the operations that are left.
unfoldable pub run_operations : Bank → Transaction → List Operation → List ℤ → Prog Transaction
unfolding run_operation commit_transaction abort_transaction
run_operations bank tx [] loaded = commit_transaction tx loaded
run_operations bank tx (op ∷ ops) loaded = do
  (go_on, loaded') ← run_operation bank tx.tx_id op op.type loaded
  if go_on then run_operations bank tx ops loaded' else abort_transaction tx loaded'

unfoldable pub execute_transaction : Bank → Transaction → Prog Transaction
unfolding wait_until_tick run_operations
execute_transaction bank tx = do
  wait_until_tick tx.start_tick
  now ← access read_tick
  let started = record tx {
    actual_start = now;
    wait_ticks = sub_int now tx.start_tick;
    status = tx_running;
  }
  run_operations bank started (take tx.num_ops tx.ops) []
