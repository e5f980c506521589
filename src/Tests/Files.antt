-- ===== src/Tests/Files.antt =====
-- Small input files.
use cmsc125_lab3_sabandal_sa.Common.{
  ℕ, pos, negsuc, zero, suc, ◌≡◌, refl, Bool, true, false, Option, none, some, List, [], ◌∷◌, codes,
  get_elem?, replicate,
}
use cmsc125_lab3_sabandal_sa.CInt.{wrap_int}
use cmsc125_lab3_sabandal_sa.Bank.{Bank, zeroed_bank, init_bank, scan, add_account}
use cmsc125_lab3_sabandal_sa.Bank.Loaded.{IsLoaded, first-IsLoaded}
use cmsc125_lab3_sabandal_sa.Transaction.{
  Operation, op_transfer, op_deposit, Transaction, parse_op_type, init_transaction,
  add_operation_to_transaction, blank_transaction,
}
use cmsc125_lab3_sabandal_sa.Parser.{
  trim_from_end, trim_newline, skip_leading_spaces, should_skip_line, init_transactions,
  find_transaction, find_or_create_transaction, Trace,
}
use cmsc125_lab3_sabandal_sa.Parser.Scan.{scan_word, scan_int}
use cmsc125_lab3_sabandal_sa.Parser.Files.{
  parse_account, account_line, parse_accounts_file, scan_prefix, parse_operation, parse_trace_line,
  trace_line, trace_lines, parse_trace_file,
}
use cmsc125_lab3_sabandal_sa.Parser.Files.Traces.{AllSized, IsSound, parse_trace_file-IsSound}
use cmsc125_lab3_sabandal_sa.Parser.Files.Reading.{read_operation, operations_for}
use cmsc125_lab3_sabandal_sa.Parser.Files.Collected.{Collected}
use cmsc125_lab3_sabandal_sa.Parser.Files.Gathering.{parse_trace_file-Collected}
use cmsc125_lab3_sabandal_sa.Parser.Files.Accounts.{parse_accounts_file-IsLoaded}

abbrev accounts_file : List (List ℕ)
accounts_file = codes "# two accounts" ∷ codes "10 50000 " ∷ [] ∷ codes "20 700" ∷ []

abbrev bank_or_none : Option Bank → Bank
bank_or_none none = zeroed_bank
bank_or_none (some bank) = bank

unfoldable loaded : Option Bank
unfolding parse_accounts_file account_line parse_account scan_int skip_leading_spaces
    should_skip_line trim_newline trim_from_end wrap_int add_account scan init_bank
loaded = parse_accounts_file accounts_file (init_bank zeroed_bank)

parse_accounts_file-IsLoaded_example : IsLoaded (bank_or_none loaded)
unfolding loaded
parse_accounts_file-IsLoaded_example =
    parse_accounts_file-IsLoaded accounts_file (init_bank zeroed_bank) (bank_or_none loaded)
      first-IsLoaded refl

test_count : (bank_or_none loaded).num_accounts ≡ 2
unfolding loaded
test_count = refl

abbrev trace_file : List (List ℕ)
trace_file =
    codes "T1 0 TRANSFER 10 20 3000" ∷ codes "T2 4 BALANCE 10" ∷ codes "T1 0 DEPOSIT 20 +5" ∷ []

unfoldable parsed : Option Trace
unfolding parse_trace_file trace_lines trace_line parse_trace_line parse_operation scan_prefix
    scan_word scan_int skip_leading_spaces should_skip_line trim_newline trim_from_end wrap_int
    parse_op_type init_transactions init_transaction find_transaction find_or_create_transaction
    add_operation_to_transaction
parsed = parse_trace_file trace_file (replicate 4 blank_transaction)

abbrev count_of : Option Trace → ℕ
count_of none = 0
count_of (some t) = t.num_transactions

abbrev ops_at : Option Trace → ℕ → ℕ
ops_at none i = 0
ops_at (some t) i = elim (get_elem? t.transactions i) [ none ↦ 0 | some tx ↦ tx.num_ops ]

test_transactions : count_of parsed ≡ 2
unfolding parsed
test_transactions = refl

test_operations : ops_at parsed 0 ≡ 2
unfolding parsed
test_operations = refl

abbrev blank_array : List Transaction
blank_array = replicate 256 blank_transaction

unfoldable read_trace : Option Trace
unfolding parse_trace_file trace_lines trace_line parse_trace_line parse_operation scan_prefix
    scan_word scan_int skip_leading_spaces should_skip_line trim_newline trim_from_end wrap_int
    parse_op_type init_transactions init_transaction find_transaction find_or_create_transaction
    add_operation_to_transaction
read_trace = parse_trace_file trace_file blank_array

abbrev is_read : Option Trace → Bool
is_read none = false
is_read (some t) = true

abbrev trace_or_empty : Option Trace → Trace
trace_or_empty none = record { transactions = []; num_transactions = 0 }
trace_or_empty (some t) = t

read-some : (o : Option Trace) → is_read o ≡ true → o ≡ some (trace_or_empty o)
read-some none h = cc
read-some (some t) h = refl

test_read : is_read read_trace ≡ true
unfolding read_trace
test_read = refl

blank-AllSized : (n : ℕ) → AllSized (replicate n blank_transaction)
blank-AllSized zero = tt
blank-AllSized (suc n) = (refl, blank-AllSized n)

parse_trace_file-IsSound_example : IsSound (trace_or_empty read_trace)
unfolding read_trace
parse_trace_file-IsSound_example =
    parse_trace_file-IsSound trace_file blank_array (trace_or_empty read_trace) refl
      (blank-AllSized 256) (read-some read_trace test_read)

abbrev transfer_op : Operation
transfer_op = record {
  type = op_transfer;
  account_id = pos 10;
  amount_centavos = pos 3000;
  target_account = pos 20;
}

abbrev deposit_op : Operation
deposit_op = record {
  type = op_deposit;
  account_id = pos 20;
  amount_centavos = pos 5;
  target_account = negsuc 0;
}

test_order : operations_for (pos 1) trace_file ≡ transfer_op ∷ deposit_op ∷ []
unfolding read_trace operations_for read_operation
test_order = refl

parse_trace_file-Collected_example :
    Collected (λ id. operations_for id trace_file) (trace_or_empty read_trace)
unfolding read_trace
parse_trace_file-Collected_example =
    parse_trace_file-Collected trace_file blank_array (trace_or_empty read_trace) refl
      (blank-AllSized 256) (read-some read_trace test_read)
