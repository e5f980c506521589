-- ===== src/Transaction.antt =====
-- include/transaction.h, and the functions of src/core/transaction.c that build a transaction and
-- name its parts. Texts are lists of byte codes.
pub mod Building
pub mod Execute
pub mod Flow
use cmsc125_lab3_sabandal_sa.Common.{
  ℕ, ◌+◌, Bool, true, false, Option, none, some, List, [], ◌∷◌, ℤ, pos, negsuc, leb, if◌then◌else◌,
  modify, map, replicate, codes, same_text,
}

-- `MAX_OPS_PER_TX`
abbrev pub max_ops_per_tx : ℕ
max_ops_per_tx = 256

pub data OpType : Type 0 where
  op_deposit op_withdraw op_transfer op_balance : OpType

pub record Operation : Type 0 where
  pub type : OpType
  pub account_id : ℤ
  pub amount_centavos : ℤ
  pub target_account : ℤ

pub data TxStatus : Type 0 where
  tx_running tx_committed tx_aborted : TxStatus

-- `thread` is the handle, 0 for none.
pub record Transaction : Type 0 where
  pub tx_id : ℤ
  pub ops : List Operation
  pub num_ops : ℕ
  pub start_tick : ℤ
  pub thread : ℕ
  pub actual_start : ℤ
  pub actual_end : ℤ
  pub wait_ticks : ℤ
  pub status : TxStatus

unfoldable pub parse_op_type : List ℕ → Option OpType
parse_op_type op_str =
    if same_text op_str (codes "DEPOSIT")
    then some op_deposit
    else if same_text op_str (codes "WITHDRAW")
    then some op_withdraw
    else if same_text op_str (codes "TRANSFER")
    then some op_transfer
    else if same_text op_str (codes "BALANCE")
    then some op_balance
    else none

unfoldable pub op_type_to_string : OpType → List ℕ
op_type_to_string op_deposit = codes "DEPOSIT"
op_type_to_string op_withdraw = codes "WITHDRAW"
op_type_to_string op_transfer = codes "TRANSFER"
op_type_to_string op_balance = codes "BALANCE"

unfoldable pub tx_status_to_string : TxStatus → List ℕ
tx_status_to_string tx_running = codes "RUNNING"
tx_status_to_string tx_committed = codes "COMMITTED"
tx_status_to_string tx_aborted = codes "ABORTED"

abbrev pub no_operation : Operation
no_operation = record {
  type = op_balance;
  account_id = negsuc 0;
  amount_centavos = pos 0;
  target_account = negsuc 0;
}

-- Every one of the `MAX_OPS_PER_TX` operations is written.
unfoldable pub init_transaction : Transaction → ℤ → ℤ → Transaction
init_transaction tx tx_id start_tick = record {
  tx_id = tx_id;
  ops = map (λ (o : Operation). no_operation) tx.ops;
  num_ops = 0;
  start_tick = start_tick;
  thread = 0;
  actual_start = negsuc 0;
  actual_end = negsuc 0;
  wait_ticks = pos 0;
  status = tx_running;
}

unfoldable pub add_operation_to_transaction : Transaction → OpType → ℤ → ℤ → ℤ → Bool × Transaction
add_operation_to_transaction tx type account_id amount_centavos target_account =
    if leb max_ops_per_tx tx.num_ops then (false, tx) else (
      true,
      record tx {
        ops = modify tx.ops tx.num_ops λ o. record {
          type = type;
          account_id = account_id;
          amount_centavos = amount_centavos;
          target_account = target_account;
        };
        num_ops = tx.num_ops + 1;
      },
    )

-- A transaction of `transactions` in `main`, before it is initialised.
abbrev pub blank_transaction : Transaction
blank_transaction = record {
  tx_id = pos 0;
  ops = replicate max_ops_per_tx no_operation;
  num_ops = 0;
  start_tick = pos 0;
  thread = 0;
  actual_start = pos 0;
  actual_end = pos 0;
  wait_ticks = pos 0;
  status = tx_running;
}
