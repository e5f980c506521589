-- ===== src/Transaction/Flow.antt =====
-- The money that a transaction's operations bring into the bank and take out of it, as natural
-- numbers. A deposit of a negative amount brings nothing.
use cmsc125_lab3_sabandal_sa.Common.{ℕ, ◌+◌, List, [], ◌∷◌, ℤ, pos_part}
use cmsc125_lab3_sabandal_sa.Transaction.{OpType, op_deposit, op_withdraw, Operation}

abbrev pub paid_in : OpType → ℤ → ℕ
paid_in op_deposit amount = pos_part amount
paid_in _ amount = 0

abbrev pub taken_out : OpType → ℤ → ℕ
taken_out op_withdraw amount = pos_part amount
taken_out _ amount = 0

abbrev pub all_paid_in : List Operation → ℕ
all_paid_in [] = 0
all_paid_in (op ∷ ops) = paid_in op.type op.amount_centavos + all_paid_in ops

abbrev pub all_taken_out : List Operation → ℕ
all_taken_out [] = 0
all_taken_out (op ∷ ops) = taken_out op.type op.amount_centavos + all_taken_out ops
