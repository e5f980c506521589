-- ===== src/Tests/Texts.antt =====
-- Lines in the documented formats, a tick length, and the summary of the small run.
use cmsc125_lab3_sabandal_sa.Common.{◌+◌, ◌≡◌, refl, arith, some, pos, negsuc, codes}
use cmsc125_lab3_sabandal_sa.Bank.{add_account}
use cmsc125_lab3_sabandal_sa.Transaction.{
  op_deposit, op_type_to_string, add_operation_to_transaction,
}
use cmsc125_lab3_sabandal_sa.Parser.Files.{accepted, parse_account, added, parse_trace_line}
use cmsc125_lab3_sabandal_sa.Parser.RoundTrip.{parse_trace_line-text, parse_account-text}
use cmsc125_lab3_sabandal_sa.Metrics.{Summary, print_summary}
use cmsc125_lab3_sabandal_sa.Metrics.Counts.{committed_in, aborted_in}
use cmsc125_lab3_sabandal_sa.Flow.Sums.{gather}
use cmsc125_lab3_sabandal_sa.Threads.Summary.{print_summary-adds_up}
use cmsc125_lab3_sabandal_sa.Main.{parse_tick_ms}
use cmsc125_lab3_sabandal_sa.Main.Ticks.{parse_tick_ms-decimal}
use cmsc125_lab3_sabandal_sa.Tests.Fixtures.{
  first_transaction, small_bank, two_transactions, small_memory, small-IsReady,
}
use cmsc125_lab3_sabandal_sa.Tests.Runs.{in_turn, results, small-ended}

parse_trace_line-text_example :
    parse_trace_line (codes "T1 0 DEPOSIT 10 5000") first_transaction
    ≡ added
        (add_operation_to_transaction first_transaction op_deposit (pos 10) (pos 5000) (negsuc 0))
unfolding op_type_to_string
parse_trace_line-text_example =
    parse_trace_line-text first_transaction op_deposit 1 0 10 5000 0 refl refl (omega arith)
      (omega arith) (omega arith) (omega arith) (omega arith)

parse_account-text_example :
    parse_account small_bank (codes "30 125000")
    ≡ accepted (add_account small_bank (pos 30) (pos 125000))
parse_account-text_example = parse_account-text small_bank 30 125000 (omega arith) (omega arith)

parse_tick_ms-decimal_example : parse_tick_ms (codes "250") ≡ some (pos 250)
parse_tick_ms-decimal_example = parse_tick_ms-decimal 250 (omega arith) (omega arith)

print_summary-adds_up_example :
    (s : Summary) × (print_summary (gather 2 results) (pos 2) (pos 46) ≡ some s)
    × (s.outcomes ≡ record {
      committed = pos (committed_in (gather 2 results));
      aborted = pos (aborted_in (gather 2 results));
    })
    × (committed_in (gather 2 results) + aborted_in (gather 2 results) ≡ 2)
print_summary-adds_up_example =
    print_summary-adds_up 2 two_transactions small_memory small-IsReady (in_turn 46) results
      small-ended (omega arith) (pos 46)
