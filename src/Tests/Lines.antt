-- ===== src/Tests/Lines.antt =====
-- The parser's helpers on a few lines, and on an array of transactions.
use cmsc125_lab3_sabandal_sa.Common.{
  ℕ, ◌≡◌, refl, List, ◌++◌, reverse, replicate, pos, arith, codes,
}
use cmsc125_lab3_sabandal_sa.Transaction.{blank_transaction}
use cmsc125_lab3_sabandal_sa.Parser.{trim_newline, Trace, find_or_create_transaction}
use cmsc125_lab3_sabandal_sa.Parser.Lines.{AllSpace, StartsWell, trim_newline-split}
use cmsc125_lab3_sabandal_sa.Parser.Lookup.{Gathered, find_or_create_transaction-Gathered}

trim_newline-split_example :
    (spaces : List ℕ) × (codes "10 500 " ≡ trim_newline (codes "10 500 ") ++ reverse spaces)
    × AllSpace spaces
    × StartsWell (reverse (trim_newline (codes "10 500 ")))
trim_newline-split_example = trim_newline-split (codes "10 500 ")

abbrev empty_trace : Trace
empty_trace = record { transactions = replicate 256 blank_transaction; num_transactions = 0 }

find_or_create_transaction-Gathered_example :
    Gathered empty_trace (pos 1) (pos 3) (find_or_create_transaction empty_trace (pos 1) (pos 3))
find_or_create_transaction-Gathered_example =
    find_or_create_transaction-Gathered empty_trace (pos 1) (pos 3)
      (record { size = refl; bounded = omega arith })
