-- ===== src/Parser/Files.antt =====
-- `parse_accounts_file`, `parse_trace_line` and `parse_trace_file` of src/system/parser.c. A file is
-- the list of the lines that `fgets` gives, at most 255 bytes each; that it can be opened is taken
-- for granted. On any error the caller leaves the program, so an error is `none`.
pub mod Accounts
pub mod Traces
pub mod Reading
pub mod Collected
pub mod Gathering
use cmsc125_lab3_sabandal_sa.Common.{
  ℕ, Bool, true, false, not, Option, none, some, List, [], ◌∷◌, ℤ, pos, negsuc, ltb_ℤ, ◌==◌, ◌==ℤ◌,
  if◌then◌else◌, get_elem?, modify,
}
use cmsc125_lab3_sabandal_sa.Bank.{Bank, add_account}
use cmsc125_lab3_sabandal_sa.Transaction.{
  OpType, op_deposit, op_withdraw, op_transfer, op_balance, Transaction, parse_op_type,
  add_operation_to_transaction,
}
use cmsc125_lab3_sabandal_sa.Parser.{
  trim_newline, should_skip_line, init_transactions, Trace, find_or_create_transaction,
}
use cmsc125_lab3_sabandal_sa.Parser.Scan.{◌>>=◌, scan_word, scan_int}

abbrev pub accepted : Option (Bool × Bank) → Option Bank
accepted none = none
accepted (some (false, bank)) = none
accepted (some (true, bank)) = some bank

-- The tests of a line's two numbers.
abbrev pub checked_account : Bank → ℤ → ℤ → Option Bank
checked_account bank account_id initial_balance =
    if ltb_ℤ account_id (pos 0)
    then none
    else if ltb_ℤ initial_balance (pos 0)
    then none
    else accepted (add_account bank account_id initial_balance)

unfoldable pub parse_account : Bank → List ℕ → Option Bank
unfolding scan_int add_account
parse_account bank line = do
  (account_id, rest) ← scan_int line
  (initial_balance, rest') ← scan_int rest
  checked_account bank account_id initial_balance

unfoldable pub account_line : Bank → List ℕ → Option Bank
unfolding parse_account should_skip_line
account_line bank line = if should_skip_line line then some bank else parse_account bank line

unfoldable pub parse_accounts_file : List (List ℕ) → Bank → Option Bank
unfolding account_line trim_newline
parse_accounts_file [] bank = some bank
parse_accounts_file (line ∷ lines) bank =
    account_line bank (trim_newline line) >>= parse_accounts_file lines

-- What stands before the arguments of an operation.
pub record Prefix : Type 0 where
  pub tx_id : ℤ
  pub start_tick : ℤ
  pub op_str : List ℕ
  pub arguments : List ℕ

-- `T` and a number.
abbrev pub label_id : List ℕ → Option ℤ
label_id [] = none
label_id (ch ∷ digits) = if ch == 84 then (scan_int digits >>= λ r. some r.0) else none

unfoldable pub scan_prefix : List ℕ → Option Prefix
unfolding scan_word scan_int
scan_prefix line = do
  (tx_label, rest) ← scan_word line
  (start_tick, rest') ← scan_int rest
  (op_str, arguments) ← scan_word rest'
  tx_id ← label_id tx_label
  some (record { tx_id = tx_id; start_tick = start_tick; op_str = op_str; arguments = arguments })

abbrev pub added : Bool × Transaction → Option Transaction
added (false, tx) = none
added (true, tx) = some tx

-- The second `sscanf` of each case reads the prefix once more, and then these arguments.
unfoldable pub parse_operation : Transaction → OpType → List ℕ → Option Transaction
unfolding scan_int add_operation_to_transaction
parse_operation tx op_deposit arguments = do
  (account_id, rest) ← scan_int arguments
  (amount, rest') ← scan_int rest
  added (add_operation_to_transaction tx op_deposit account_id amount (negsuc 0))
parse_operation tx op_withdraw arguments = do
  (account_id, rest) ← scan_int arguments
  (amount, rest') ← scan_int rest
  added (add_operation_to_transaction tx op_withdraw account_id amount (negsuc 0))
parse_operation tx op_transfer arguments = do
  (account_id, rest) ← scan_int arguments
  (target_account, rest') ← scan_int rest
  (amount, rest'') ← scan_int rest'
  added (add_operation_to_transaction tx op_transfer account_id amount target_account)
parse_operation tx op_balance arguments = do
  (account_id, rest) ← scan_int arguments
  added (add_operation_to_transaction tx op_balance account_id (pos 0) (negsuc 0))

unfoldable pub parse_trace_line : List ℕ → Transaction → Option Transaction
unfolding scan_prefix parse_op_type parse_operation
parse_trace_line line tx = do
  p ← scan_prefix line
  if not (tx.tx_id ==ℤ p.tx_id)
      then none
      else if not (tx.start_tick ==ℤ p.start_tick)
      then none
      else do type ← parse_op_type p.op_str; parse_operation tx type p.arguments

abbrev pub put_transaction : Trace → ℕ → Transaction → Trace
put_transaction t i tx = record t { transactions = modify t.transactions i (λ old. tx) }

-- The line goes to its transaction.
abbrev pub gather_line : List ℕ → Option ℕ × Trace → Option Trace
gather_line line (none, t) = none
gather_line line (some i, t) = do
  tx ← get_elem? t.transactions i
  tx' ← parse_trace_line line tx
  some (put_transaction t i tx')

unfoldable pub trace_line : Trace → List ℕ → Option Trace
unfolding should_skip_line scan_prefix parse_trace_line find_or_create_transaction
trace_line t line = if should_skip_line line then some t else do
  p ← scan_prefix line
  if ltb_ℤ p.start_tick (pos 0)
      then none
      else gather_line line (find_or_create_transaction t p.tx_id p.start_tick)

unfoldable pub trace_lines : List (List ℕ) → Trace → Option Trace
unfolding trace_line trim_newline
trace_lines [] t = some t
trace_lines (line ∷ lines) t = trace_line t (trim_newline line) >>= trace_lines lines

unfoldable pub parse_trace_file : List (List ℕ) → List Transaction → Option Trace
unfolding trace_lines init_transactions
parse_trace_file lines transactions =
    trace_lines lines
      (record { transactions = init_transactions transactions; num_transactions = 0 })
