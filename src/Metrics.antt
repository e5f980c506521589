-- ===== src/Metrics.antt =====
-- src/system/metrics.c: what is computed and reported after the threads have been joined. The
-- reports are values; how `printf` lays them out is left out. A quotient of two numbers that the
-- source converts to `double` is kept as the pair of the numbers.
pub mod Check
pub mod Counts
use cmsc125_lab3_sabandal_sa.Common.{
  ℕ, zero, suc, ◌+◌, Bool, true, false, ◌||◌, Option, none, some, List, [], ◌∷◌, map, ℤ, pos,
  pos_part, ltb_ℤ, leb_ℤ, ◌==ℤ◌, if◌then◌else◌, length, take,
}
use cmsc125_lab3_sabandal_sa.CInt.{add_int, add_long}
use cmsc125_lab3_sabandal_sa.Bank.{Bank}
use cmsc125_lab3_sabandal_sa.BufferPool.{BufferPool}
use cmsc125_lab3_sabandal_sa.LockMgr.{read_lock_account, read_unlock_account}
use cmsc125_lab3_sabandal_sa.Machine.{load_balance, Prog, ret, access, ◌>>=◌, ◌>>◌}
use cmsc125_lab3_sabandal_sa.Transaction.{
  TxStatus, tx_running, tx_committed, tx_aborted, Transaction, tx_status_to_string,
}

-- `(double) dividend / (double) divisor`
pub record Quotient : Type 0 where
  pub dividend : ℤ
  pub divisor : ℤ

-- The loop of `compute_average_wait`.
unfoldable pub total_wait : List Transaction → ℤ → ℤ
total_wait [] total = total
total_wait (tx ∷ rest) total = total_wait rest (add_long total tx.wait_ticks)

-- `none` is 0.0. The array is `transactions`, of which the first `num_transactions` count.
unfoldable pub compute_average_wait : List Transaction → ℤ → Option Quotient
unfolding total_wait
compute_average_wait transactions num_transactions =
    if leb_ℤ num_transactions (pos 0)
    then none
    else some (record {
      dividend = total_wait (take (pos_part num_transactions) transactions) (pos 0);
      divisor = num_transactions;
    })

unfoldable pub compute_throughput : ℤ → ℤ → Option Quotient
compute_throughput total_transactions total_ticks =
    if leb_ℤ total_transactions (pos 0) || leb_ℤ total_ticks (pos 0)
    then none
    else some (record { dividend = total_transactions; divisor = total_ticks })

pub record Outcomes : Type 0 where
  pub committed : ℤ
  pub aborted : ℤ

abbrev pub count_outcome : TxStatus → Outcomes → Outcomes
count_outcome tx_committed n = record n { committed = add_int n.committed (pos 1) }
count_outcome tx_aborted n = record n { aborted = add_int n.aborted (pos 1) }
count_outcome tx_running n = n

-- The loop of `print_summary`.
unfoldable pub count_outcomes : List Transaction → Outcomes → Outcomes
count_outcomes [] n = n
count_outcomes (tx ∷ rest) n = count_outcomes rest (count_outcome tx.status n)

pub record Summary : Type 0 where
  pub transactions : ℤ
  pub outcomes : Outcomes
  pub total_ticks : ℤ
  pub average_wait : Option Quotient
  pub throughput : Option Quotient

-- `none` if nothing is printed.
unfoldable pub print_summary : List Transaction → ℤ → ℤ → Option Summary
unfolding count_outcomes compute_average_wait compute_throughput
print_summary transactions num_transactions total_ticks =
    if ltb_ℤ num_transactions (pos 0)
    then none
    else some (record {
      transactions = num_transactions;
      outcomes =
          count_outcomes (take (pos_part num_transactions) transactions)
            (record { committed = pos 0; aborted = pos 0 });
      total_ticks = total_ticks;
      average_wait = compute_average_wait transactions num_transactions;
      throughput = compute_throughput num_transactions total_ticks;
    })

-- A line of the table of transactions.
pub record MetricsRow : Type 0 where
  pub tx_id : ℤ
  pub start_tick : ℤ
  pub actual_start : ℤ
  pub actual_end : ℤ
  pub wait_ticks : ℤ
  pub status : List ℕ

abbrev metrics_row : Transaction → MetricsRow
metrics_row tx = record {
  tx_id = tx.tx_id;
  start_tick = tx.start_tick;
  actual_start = tx.actual_start;
  actual_end = tx.actual_end;
  wait_ticks = tx.wait_ticks;
  status = tx_status_to_string tx.status;
}

unfoldable pub print_transaction_metrics : List Transaction → ℤ → Option (List MetricsRow)
unfolding tx_status_to_string
print_transaction_metrics transactions num_transactions =
    if ltb_ℤ num_transactions (pos 0)
    then none
    else some (map metrics_row (take (pos_part num_transactions) transactions))

pub record PoolReport : Type 0 where
  pub loads : ℤ
  pub unloads : ℤ
  pub blocked : ℤ
  pub current_use : ℤ
  pub peak_use : ℤ

unfoldable pub print_buffer_pool_report : BufferPool → PoolReport
print_buffer_pool_report pool = record {
  loads = pool.load_count;
  unloads = pool.unload_count;
  blocked = pool.blocked_count;
  current_use = pool.current_usage;
  peak_use = pool.peak_usage;
}

-- The loop of `compute_total_balance` from slot `i` on, `rounds` slots.
unfoldable pub total_balance_from : ℕ → ℕ → ℤ → Prog ℤ
unfolding read_lock_account read_unlock_account
total_balance_from i zero total = ret total
total_balance_from i (suc rounds) total = do
  read_lock_account (some i)
  balance ← access (load_balance i)
  read_unlock_account (some i)
  total_balance_from (suc i) rounds (add_long total balance)

unfoldable pub compute_total_balance : Bank → Prog ℤ
unfolding total_balance_from
compute_total_balance bank = total_balance_from 0 bank.num_accounts (pos 0)

pub record BalanceCheck : Type 0 where
  pub initial_total : ℤ
  pub net_external_flow : ℤ
  pub expected_total : ℤ
  pub final_total : ℤ
  pub pass : Bool

unfoldable pub verify_balance_conservation : Bank → ℤ → ℤ → Prog BalanceCheck
unfolding compute_total_balance
verify_balance_conservation bank initial_total net_external_flow = do
  final_total ← compute_total_balance bank
  let expected_total = add_long initial_total net_external_flow
  ret (record {
    initial_total = initial_total;
    net_external_flow = net_external_flow;
    expected_total = expected_total;
    final_total = final_total;
    pass = expected_total ==ℤ final_total;
  })
