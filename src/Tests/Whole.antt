-- ===== src/Tests/Whole.antt =====
-- The theorems on whole runs, for the two threads of the small bank.
use cmsc125_lab3_sabandal_sa.Common.{
  ℕ, ◌+ℤ◌, zero, suc, ◌+◌, ◌≤◌, ◌<◌, ◌≡◌, refl, pos, arith, some, length, total, true, sub_ℕ,
}
use cmsc125_lab3_sabandal_sa.BufferPool.{buffer_pool_size}
use cmsc125_lab3_sabandal_sa.Machine.{Shared, exec}
use cmsc125_lab3_sabandal_sa.Metrics.{
  BalanceCheck, compute_total_balance, verify_balance_conservation,
}
use cmsc125_lab3_sabandal_sa.CInt.{add_long, wrap_long}
use cmsc125_lab3_sabandal_sa.Transaction.{Transaction, tx_committed, tx_aborted}
use cmsc125_lab3_sabandal_sa.Flow.{
  flow_of_ops, flow_of_transaction, flow_of_transactions, compute_committed_external_flow,
}
use cmsc125_lab3_sabandal_sa.Flow.Sums.{
  Positive, gather, compute_committed_external_flow-eq, paid_of, taken_of,
}
use cmsc125_lab3_sabandal_sa.Threads.{run, launch}
use cmsc125_lab3_sabandal_sa.Threads.Invariant.{money_in, used}
use cmsc125_lab3_sabandal_sa.Threads.Launch.{ops_of}
use cmsc125_lab3_sabandal_sa.Threads.Conservation.{Settlement, money_conserved, committed_conserved}
use cmsc125_lab3_sabandal_sa.Threads.PoolBounds.{pool-IsBounded}
use cmsc125_lab3_sabandal_sa.Threads.Verdict.{
  ready-total, ended-AllOpen, verify_balance_conservation-passes,
}
use cmsc125_lab3_sabandal_sa.Metrics.Check.{AllOpen}
use cmsc125_lab3_sabandal_sa.Tests.Fixtures.{
  small_bank, first_transaction, second_transaction, two_transactions, small_memory, small-IsReady,
}
use cmsc125_lab3_sabandal_sa.Tests.Runs.{in_turn, results, small-ended, small-committed}

abbrev end : Shared
end = (run 2 (launch two_transactions small_memory) (in_turn 46)).memory

money_conserved_example : Settlement 2 two_transactions results 1500 (money_in end.bank.accounts)
money_conserved_example =
    money_conserved 2 two_transactions small_memory small-IsReady (in_turn 46) results small-ended

committed_conserved_example : money_in end.bank.accounts + 50 ≡ 1500 + 200
unfolding total
committed_conserved_example =
    committed_conserved 2 two_transactions small_memory small-IsReady (in_turn 46) results
      small-ended small-committed

pool-IsBounded_example :
    (length end.pool.slots ≡ buffer_pool_size)
    × (used end.pool.slots + end.pool.empty_slots ≤ buffer_pool_size)
    × (end.pool.current_usage ≡ pos (used end.pool.slots))
pool-IsBounded_example = pool-IsBounded 2 two_transactions small_memory small-IsReady (in_turn 46)

ended-AllOpen_example : AllOpen end
ended-AllOpen_example =
    ended-AllOpen 2 two_transactions small_memory small-IsReady (in_turn 46) results small-ended

small-Positive : (i : ℕ) → i < 2 → Positive (ops_of (two_transactions i))
small-Positive zero lt = (refl, (refl, tt))
small-Positive (suc zero) lt = (refl, (refl, tt))
small-Positive (suc (suc i)) lt = absurd (omega arith)

ready-total_example :
    exec (compute_total_balance small_bank) small_memory ≡ some (pos 1500, small_memory)
ready-total_example = ready-total 2 two_transactions small_memory small-IsReady

verify_balance_conservation-passes_example :
    (check : BalanceCheck) × (exec
        (verify_balance_conservation end.bank
          (pos 1500)
          (compute_committed_external_flow (gather 2 results) (pos 2)))
        end
      ≡ some (check, end))
    × (check.pass ≡ true)
verify_balance_conservation-passes_example =
    verify_balance_conservation-passes 2 two_transactions small_memory small-IsReady (in_turn 46)
      results small-ended (λ i lt. (small-committed i lt, small-Positive i lt)) (pos 1500)
      (ready-total 2 two_transactions small_memory small-IsReady)

-- The second transaction is aborted, and counts for nothing.
abbrev mixed : ℕ → Transaction
mixed zero = record first_transaction { status = tx_committed }
mixed (suc i) = record second_transaction { status = tx_aborted }

test_flow : compute_committed_external_flow (gather 2 mixed) (pos 2) ≡ pos 200
unfolding compute_committed_external_flow flow_of_transactions flow_of_transaction flow_of_ops
    add_long wrap_long ◌+ℤ◌
test_flow = refl

compute_committed_external_flow-eq_example :
    compute_committed_external_flow (gather 2 mixed) (pos 2)
    ≡ sub_ℕ (paid_of (gather 2 mixed)) (taken_of (gather 2 mixed))
compute_committed_external_flow-eq_example =
    compute_committed_external_flow-eq 2 mixed ((refl, (refl, tt)), (tt, tt)) (omega arith)
      (omega arith)
