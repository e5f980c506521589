-- ===== src/Flow.antt =====
-- `compute_committed_external_flow` of src/main.c, and what `main` does once the threads have been
-- joined.
pub mod Sums
use cmsc125_lab3_sabandal_sa.Common.{
  ℕ, Bool, true, false, Option, none, some, List, [], ◌∷◌, ℤ, pos, pos_part, leb_ℤ, if◌then◌else◌,
  take,
}
use cmsc125_lab3_sabandal_sa.CInt.{add_long, sub_long}
use cmsc125_lab3_sabandal_sa.Transaction.{
  OpType, op_deposit, op_withdraw, op_transfer, op_balance, Operation, TxStatus, tx_running,
  tx_committed, tx_aborted, Transaction,
}

abbrev pub add_flow : OpType → ℤ → ℤ → ℤ
add_flow op_deposit amount flow = add_long flow amount
add_flow op_withdraw amount flow = sub_long flow amount
add_flow op_transfer amount flow = flow
add_flow op_balance amount flow = flow

-- The inner loop.
unfoldable pub flow_of_ops : List Operation → ℤ → ℤ
flow_of_ops [] flow = flow
flow_of_ops (op ∷ ops) flow = flow_of_ops ops (add_flow op.type op.amount_centavos flow)

unfoldable pub flow_of_transaction : TxStatus → Transaction → ℤ → ℤ
unfolding flow_of_ops
flow_of_transaction tx_committed tx flow = flow_of_ops (take tx.num_ops tx.ops) flow
flow_of_transaction tx_running tx flow = flow
flow_of_transaction tx_aborted tx flow = flow

-- The outer loop.
unfoldable pub flow_of_transactions : List Transaction → ℤ → ℤ
unfolding flow_of_transaction
flow_of_transactions [] flow = flow
flow_of_transactions (tx ∷ rest) flow =
    flow_of_transactions rest (flow_of_transaction tx.status tx flow)

unfoldable pub compute_committed_external_flow : List Transaction → ℤ → ℤ
unfolding flow_of_transactions
compute_committed_external_flow transactions num_transactions =
    if leb_ℤ num_transactions (pos 0)
    then pos 0
    else flow_of_transactions (take (pos_part num_transactions) transactions) (pos 0)
