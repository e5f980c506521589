-- ===== src/Main/Program.antt =====
-- `main` of src/main.c, from the arguments to the reports. The files are a function from names to
-- lines, with `none` for a file that cannot be opened. The handles that `pthread_create` gives and
-- the schedule of the threads are arguments: `main` goes on once every worker it joins has ended.
use cmsc125_lab3_sabandal_sa.Common.{
  ℕ, zero, suc, Bool, true, false, ◌&&◌, ◌||◌, ◌==◌, Option, none, some, List, [], ℤ, pos,
  get_elem?, replicate, if◌then◌else◌,
}
use cmsc125_lab3_sabandal_sa.Bank.{Bank, zeroed_bank, init_bank, init_account_locks}
use cmsc125_lab3_sabandal_sa.BufferPool.{zeroed_pool, init_buffer_pool}
use cmsc125_lab3_sabandal_sa.Machine.{Shared, Prog, ret, call, exec}
use cmsc125_lab3_sabandal_sa.Timer.{init_timer}
use cmsc125_lab3_sabandal_sa.Transaction.{Transaction, blank_transaction}
use cmsc125_lab3_sabandal_sa.Parser.{Trace, max_transactions}
use cmsc125_lab3_sabandal_sa.Parser.Scan.{◌>>=◌}
use cmsc125_lab3_sabandal_sa.Parser.Files.{parse_accounts_file, parse_trace_file}
use cmsc125_lab3_sabandal_sa.Metrics.{
  Summary, MetricsRow, PoolReport, BalanceCheck, compute_total_balance, print_summary,
  print_transaction_metrics, print_buffer_pool_report, verify_balance_conservation,
}
use cmsc125_lab3_sabandal_sa.Flow.{compute_committed_external_flow}
use cmsc125_lab3_sabandal_sa.Flow.Sums.{gather}
use cmsc125_lab3_sabandal_sa.Threads.{System, Turn, run, launch}
use cmsc125_lab3_sabandal_sa.Main.{Config, parse_args}

abbrev pub Files : Type 0
Files = List ℕ → Option (List (List ℕ))

-- What is printed in the end.
pub record Reports : Type 0 where
  pub summary : Option Summary
  pub metrics : Option (List MetricsRow)
  pub pool : PoolReport
  pub balance_check : BalanceCheck

-- `exit_failure` and `exit_success` are the exit codes. `not_ended` says that under the schedule the
-- program has not come to its end.
pub data Outcome : Type 0 where
  exit_failure : Outcome
  exit_success : Reports → Outcome
  not_ended : Outcome

-- The accounts as `main` has them before it reads the trace.
unfoldable pub load_bank : Files → Config → Option Bank
unfolding parse_accounts_file init_bank init_account_locks
load_bank files config = do
  name ← config.accounts_file
  lines ← files name
  bank ← parse_accounts_file lines (init_bank zeroed_bank)
  some (init_account_locks bank)

-- `transactions` is an array of `MAX_TRANSACTIONS` on the stack.
unfoldable pub load_trace : Files → Config → Option Trace
unfolding parse_trace_file
load_trace files config = do
  name ← config.trace_file
  lines ← files name
  parse_trace_file lines (replicate max_transactions blank_transaction)

-- The globals when the accounts are loaded.
abbrev pub loaded_memory : Bank → Shared
loaded_memory bank = record {
  bank = bank;
  pool = zeroed_pool;
  global_tick = pos 0;
  simulation_running = false;
  output = [];
}

unfoldable pub start_simulation : Shared → Shared
unfolding init_buffer_pool init_timer
start_simulation m = record (init_timer (record m { pool = init_buffer_pool m.pool })) {
  simulation_running = true;
}

abbrev entry_or_blank : Option Transaction → Transaction
entry_or_blank none = blank_transaction
entry_or_blank (some tx) = tx

-- `&transactions[i]`, with the handle that `pthread_create` has stored there.
abbrev pub transaction_at : (ℕ → ℕ) → Trace → ℕ → Transaction
transaction_at handle trace i = record (entry_or_blank (get_elem? trace.transactions i)) {
  thread = handle i;
}

abbrev pub has_ended : Prog Transaction → Bool
has_ended (ret tx) = true
has_ended (call a k) = false

-- Every thread whose handle is not zero is joined, and each of these joins returns.
abbrev pub all_joined : (ℕ → ℕ) → ℕ → (ℕ → Prog Transaction) → Bool
all_joined handle zero worker = true
all_joined handle (suc n) worker =
    (handle n == 0 || has_ended (worker n)) && all_joined handle n worker

-- The record of a thread that has ended.
abbrev pub outcome_of : Prog Transaction → Transaction
outcome_of (ret tx) = tx
outcome_of (call a k) = blank_transaction

abbrev pub stop_timer : Shared → Shared
stop_timer m = record m { simulation_running = false }

abbrev pub with_check : List Transaction → ℤ → Shared → Option (BalanceCheck × Shared) → Outcome
with_check transactions num_transactions m none = not_ended
with_check transactions num_transactions m (some (check, m')) = exit_success (record {
  summary = print_summary transactions num_transactions m.global_tick;
  metrics = print_transaction_metrics transactions num_transactions;
  pool = print_buffer_pool_report m.pool;
  balance_check = check;
})

-- From the joins on.
unfoldable pub report : List Transaction → ℤ → ℤ → Shared → Outcome
unfolding print_summary print_transaction_metrics print_buffer_pool_report
    verify_balance_conservation compute_committed_external_flow
report transactions num_transactions initial_total m = with_check transactions num_transactions m (
    exec
      (verify_balance_conservation m.bank initial_total
        (compute_committed_external_flow transactions num_transactions))
      m)

-- The threads run.
unfoldable pub simulate : Trace → (ℕ → ℕ) → List Turn → ℤ → Shared → Outcome
unfolding report run launch
simulate trace handle ts initial_total m =
    let s : System = run trace.num_transactions (launch (transaction_at handle trace) m) ts in
    if all_joined handle trace.num_transactions s.worker
    then report (gather trace.num_transactions (λ i. outcome_of (s.worker i)))
        (pos trace.num_transactions) initial_total (stop_timer s.memory)
    else not_ended

abbrev pub with_trace : Option Trace → (ℕ → ℕ) → List Turn → ℤ → Shared → Outcome
with_trace none handle ts initial_total m = exit_failure
with_trace (some trace) handle ts initial_total m =
    simulate trace handle ts initial_total (start_simulation m)

abbrev pub with_total : Option Trace → (ℕ → ℕ) → List Turn → Option (ℤ × Shared) → Outcome
with_total trace handle ts none = not_ended
with_total trace handle ts (some (initial_total, m)) = with_trace trace handle ts initial_total m

abbrev pub with_bank : Option Trace → (ℕ → ℕ) → List Turn → Option Bank → Outcome
with_bank trace handle ts none = exit_failure
with_bank trace handle ts (some bank) =
    with_total trace handle ts (exec (compute_total_balance bank) (loaded_memory bank))

abbrev pub with_config : Files → (ℕ → ℕ) → List Turn → Option Config → Outcome
with_config files handle ts none = exit_failure
with_config files handle ts (some config) =
    with_bank (load_trace files config) handle ts (load_bank files config)

unfoldable pub main : List (List ℕ) → Files → (ℕ → ℕ) → List Turn → Outcome
unfolding parse_args
main args files handle ts = with_config files handle ts (parse_args args)
