-- ===== src/Tests/Program.antt =====
-- The whole program on a command line, two small files, and one thread that runs to its end.
use cmsc125_lab3_sabandal_sa.Common.{
  ℕ, zero, suc, ◌<◌, ◌≡◌, refl, arith, total, Bool, true, false, Option, none, some, List, [], ◌∷◌,
  codes, same_text, if◌then◌else◌, ◌+ℤ◌, ◌-ℤ◌, dec_lt, ℕ_discrete, pos,
}
use cmsc125_lab3_sabandal_sa.CInt.{wrap_int, add_int, sub_int, int_half}
use cmsc125_lab3_sabandal_sa.Bank.{
  Bank, zeroed_bank, init_bank, init_locks, init_account_locks, scan, add_account, direct_slot,
  get_account,
}
use cmsc125_lab3_sabandal_sa.Bank.Money.{
  read_balance, get_balance, put_in, deposit, take_out, withdraw, move_locked, move, transfer,
}
use cmsc125_lab3_sabandal_sa.BufferPool.{
  init_buffer_slots, init_buffer_pool, pin_slot, fill_slot, place, unpin_slot, unpin, slots_hold,
}
use cmsc125_lab3_sabandal_sa.BufferPool.Calls.{
  claim_empty, after_place, load_slot, load_account, after_unpin, unload_account,
}
use cmsc125_lab3_sabandal_sa.LockMgr.{
  lock_account, unlock_account, read_lock_account, read_unlock_account, validate_accounts,
  lock_accounts_in_order, unlock_accounts,
}
use cmsc125_lab3_sabandal_sa.Machine.{perform}
use cmsc125_lab3_sabandal_sa.Timer.{init_timer, wait_until_tick, timer_round}
use cmsc125_lab3_sabandal_sa.Transaction.{
  parse_op_type, init_transaction, add_operation_to_transaction, tx_committed,
}
use cmsc125_lab3_sabandal_sa.Transaction.Execute.{
  record_transaction_end, transaction_has_loaded_account, load_found, load_account_for_transaction,
  unload_transaction_accounts, abort_transaction, load_both, perform_deposit, perform_withdraw,
  perform_transfer, perform_balance, run_operation, commit_transaction, run_operations,
  execute_transaction,
}
use cmsc125_lab3_sabandal_sa.Parser.{
  trim_from_end, trim_newline, skip_leading_spaces, should_skip_line, init_transactions,
  find_transaction, find_or_create_transaction, Trace,
}
use cmsc125_lab3_sabandal_sa.Parser.Scan.{scan_word, scan_int}
use cmsc125_lab3_sabandal_sa.Parser.Files.{
  parse_account, account_line, parse_accounts_file, scan_prefix, parse_operation, parse_trace_line,
  trace_line, trace_lines, parse_trace_file,
}
use cmsc125_lab3_sabandal_sa.Threads.{System, run, launch, take_turn}
use cmsc125_lab3_sabandal_sa.Threads.Launch.{ops_of, supply_of}
use cmsc125_lab3_sabandal_sa.Flow.Sums.{Positive}
use cmsc125_lab3_sabandal_sa.Main.{
  Config, strtol, parse_tick_ms, after_prefix, parse_argument, parse_arguments, parse_args,
}
use cmsc125_lab3_sabandal_sa.Main.Arguments.{IsComplete, parse_args-IsComplete}
use cmsc125_lab3_sabandal_sa.Main.Program.{
  Files, Reports, exit_success, load_bank, load_trace, loaded_memory, start_simulation,
  transaction_at, all_joined, outcome_of, main,
}
use cmsc125_lab3_sabandal_sa.Main.Whole.{AllCommitted, main-passes}
use cmsc125_lab3_sabandal_sa.Tests.Runs.{alone}

abbrev args : List (List ℕ)
args =
    codes "--accounts=a"
    ∷ codes "--tick-ms=20"
    ∷ codes "--trace=t"
    ∷ codes "--deadlock=prevention"
    ∷ []

abbrev handle : ℕ → ℕ
handle i = suc i

abbrev config : Config
config = record {
  accounts_file = some (codes "a");
  trace_file = some (codes "t");
  deadlock_mode = some (codes "prevention");
  tick_ms = pos 20;
  verbose = pos 0;
}

abbrev files : Files
files name =
    if same_text name (codes "a")
    then some (codes "1 1000" ∷ codes "2 500" ∷ [])
    else some (codes "T1 0 DEPOSIT 1 200" ∷ [])

args-accepted : parse_args args ≡ some config
unfolding parse_args parse_arguments parse_argument after_prefix parse_tick_ms strtol
    skip_leading_spaces
args-accepted = refl

parse_args-IsComplete_example : IsComplete config
parse_args-IsComplete_example = parse_args-IsComplete args config args-accepted

abbrev value_or {ℓ} : {A : Type ℓ} → A → Option A → A
value_or a none = a
value_or a (some b) = b

abbrev is_there {ℓ} : {A : Type ℓ} → Option A → Bool
is_there none = false
is_there (some b) = true

there-some {ℓ} : {A : Type ℓ} (a : A) (o : Option A) → is_there o ≡ true → o ≡ some (value_or a o)
there-some a none h = cc
there-some a (some b) h = refl

abbrev empty_trace : Trace
empty_trace = record { transactions = []; num_transactions = 0 }

unfoldable bank : Bank
unfolding load_bank parse_accounts_file account_line parse_account scan_int skip_leading_spaces
    should_skip_line trim_newline trim_from_end wrap_int add_account scan init_bank
    init_account_locks init_locks
bank = value_or zeroed_bank (load_bank files config)

unfoldable trace : Trace
unfolding load_trace parse_trace_file trace_lines trace_line parse_trace_line parse_operation
    scan_prefix scan_word scan_int skip_leading_spaces should_skip_line trim_newline trim_from_end
    wrap_int parse_op_type init_transactions init_transaction find_transaction
    find_or_create_transaction add_operation_to_transaction
trace = value_or empty_trace (load_trace files config)

bank-loaded : load_bank files config ≡ some bank
unfolding bank
bank-loaded = there-some zeroed_bank (load_bank files config) refl

trace-loaded : load_trace files config ≡ some trace
unfolding trace
trace-loaded = there-some empty_trace (load_trace files config) refl

test_count : trace.num_transactions ≡ 1
unfolding trace
test_count = refl

trace-small :
    supply_of trace.num_transactions
      (transaction_at handle trace)
      (start_simulation (loaded_memory bank))
    < int_half
unfolding trace bank total start_simulation init_timer
trace-small = omega arith

unfoldable ending : System
unfolding trace bank start_simulation init_timer run launch take_turn perform execute_transaction
    run_operations commit_transaction run_operation perform_balance perform_transfer
    perform_withdraw perform_deposit load_both abort_transaction unload_transaction_accounts
    load_account_for_transaction load_found transaction_has_loaded_account record_transaction_end
    wait_until_tick timer_round lock_account unlock_account read_lock_account read_unlock_account
    validate_accounts lock_accounts_in_order unlock_accounts claim_empty after_place load_slot
    load_account after_unpin unload_account init_buffer_slots init_buffer_pool pin_slot fill_slot
    place unpin_slot unpin slots_hold read_balance get_balance put_in deposit take_out withdraw
    move_locked move transfer scan direct_slot get_account wrap_int add_int sub_int ◌+ℤ◌ ◌-ℤ◌
ending =
    run trace.num_transactions
      (launch (transaction_at handle trace) (start_simulation (loaded_memory bank))) (alone 24)

test_joined : all_joined handle trace.num_transactions ending.worker ≡ true
unfolding ending dec_lt ℕ_discrete
test_joined = refl

ending-AllCommitted : AllCommitted handle trace.num_transactions ending
unfolding ending dec_lt ℕ_discrete
ending-AllCommitted = record { joined = test_joined; committed = committed }
  where
    committed :
        (i : ℕ) → i < trace.num_transactions → (outcome_of (ending.worker i)).status ≡ tx_committed
    committed zero lt = refl
    committed (suc i) lt = absurd (omega arith)

trace-Positive :
    (i : ℕ) → i < trace.num_transactions → Positive (ops_of (transaction_at handle trace i))
unfolding trace
trace-Positive zero lt = (refl, tt)
trace-Positive (suc i) lt = absurd (omega arith)

main-passes_example :
    (reports : Reports) × (main args files handle (alone 24) ≡ exit_success reports)
    × (reports.balance_check.pass ≡ true)
unfolding ending
main-passes_example =
    main-passes args files handle (alone 24) config bank trace args-accepted bank-loaded
      trace-loaded trace-small (λ i lt. ground arith) trace-Positive ending-AllCommitted
