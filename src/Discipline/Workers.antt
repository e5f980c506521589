-- ===== src/Discipline/Workers.antt =====
-- `execute_transaction` of src/core/transaction.c keeps to the logic, and its purse tells what the
-- operations that it performed brought into the bank and took out of it.
use cmsc125_lab3_sabandal_sa.Common.{
  ℕ, suc, ◌+◌, ◌≤◌, ◌<◌, ◌≡◌, refl, ap, ◌≢◌, Bool, true, false, List, [], ◌∷◌, ℤ, pos_part, arith,
  if◌then◌else◌, length, take,
}
use cmsc125_lab3_sabandal_sa.CInt.{int_half, sub_int}
use cmsc125_lab3_sabandal_sa.Bank.{Bank}
use cmsc125_lab3_sabandal_sa.Bank.Lookup.{IsValid}
use cmsc125_lab3_sabandal_sa.Transaction.{
  OpType, op_deposit, op_withdraw, op_transfer, op_balance, Operation, tx_running, tx_committed,
  Transaction,
}
use cmsc125_lab3_sabandal_sa.Transaction.Execute.{
  transaction_has_loaded_account, load_account_for_transaction, unload_transaction_accounts,
  abort_transaction, load_both, perform_deposit, perform_withdraw, perform_transfer,
  perform_balance, run_operation, commit_transaction, run_operations, execute_transaction,
}
use cmsc125_lab3_sabandal_sa.Transaction.Flow.{paid_in, taken_out, all_paid_in, all_taken_out}
use cmsc125_lab3_sabandal_sa.Discipline.{Claim, IsFree, Keeps, Keeps-bind, Keeps-mono}
use cmsc125_lab3_sabandal_sa.Discipline.Locks.{Settled}
use cmsc125_lab3_sabandal_sa.Discipline.Loading.{
  AllFound, Loads, Performs, load_for-Keeps, unload_all-Keeps, load_both-Keeps,
}
use cmsc125_lab3_sabandal_sa.Discipline.Operations.{
  deposit_step-Keeps, withdraw_step-Keeps, transfer_step-Keeps, balance_step-Keeps,
}

-- What a transaction has done when it ends: the first `performed` of its operations, all of them if
-- it is committed.
pub record Ends (num_ops : ℕ) (all_ops : List Operation) (c : Claim) (ops : List Operation)
    (tx : Transaction) (c' : Claim) : Type 0 where
  pub free : IsFree c'
  pub performed : ℕ
  pub bounded : performed ≤ length ops
  pub moved :
      c'.purse + all_paid_in (take performed ops) ≡ c.purse + all_taken_out (take performed ops)
  pub complete : tx.status ≡ tx_committed → performed ≡ length ops
  pub ended : tx.status ≢ tx_running
  pub same_count : tx.num_ops ≡ num_ops
  pub same_ops : tx.ops ≡ all_ops

module _ (bank : Bank) (v : IsValid bank) (supply : ℕ) (small : supply < int_half) where
  run_operation-Keeps :
      (c : Claim) (tx_id : ℤ) (op : Operation) (type : OpType) (loaded : List ℤ)
      → IsFree c
      → AllFound bank loaded
      → paid_in type op.amount_centavos ≤ c.purse
      → Keeps bank supply c
          (run_operation bank tx_id op type loaded)
          (Performs bank c (paid_in type op.amount_centavos) (taken_out type op.amount_centavos))
  unfolding run_operation
  run_operation-Keeps c tx_id op op_deposit loaded f all fits =
      Keeps-bind bank supply {B = Bool × List ℤ} (Loads bank c op.account_id)
        (Performs bank c (pos_part op.amount_centavos) 0) c
        (load_account_for_transaction bank loaded op.account_id) (perform_deposit bank op)
        (load_for-Keeps bank supply c loaded op.account_id f all)
        (λ r d h. deposit_step-Keeps bank v supply small c d op r fits h)
  run_operation-Keeps c tx_id op op_withdraw loaded f all fits =
      Keeps-bind bank supply {B = Bool × List ℤ} (Loads bank c op.account_id)
        (Performs bank c 0 (pos_part op.amount_centavos)) c
        (load_account_for_transaction bank loaded op.account_id) (perform_withdraw bank op)
        (load_for-Keeps bank supply c loaded op.account_id f all)
        (λ r d h. withdraw_step-Keeps bank v supply small c d op r h)
  run_operation-Keeps c tx_id op op_transfer loaded f all fits =
      Keeps-bind bank supply {B = Bool × List ℤ} (Performs bank c 0 0) (Performs bank c 0 0) c
        (load_both bank loaded op.account_id op.target_account) (perform_transfer bank op)
        (load_both-Keeps bank supply c loaded op.account_id op.target_account f all)
        (λ r d h. transfer_step-Keeps bank v supply small c d op r h)
  run_operation-Keeps c tx_id op op_balance loaded f all fits =
      Keeps-bind bank supply {B = Bool × List ℤ} (Loads bank c op.account_id) (Performs bank c 0 0)
        c (load_account_for_transaction bank loaded op.account_id) (perform_balance bank tx_id op)
        (load_for-Keeps bank supply c loaded op.account_id f all)
        (λ r d h. balance_step-Keeps bank v supply small c d tx_id op r h)

  commit-Keeps :
      (c : Claim) (tx : Transaction) (loaded : List ℤ)
      → IsFree c
      → Keeps bank supply c (commit_transaction tx loaded) (Ends tx.num_ops tx.ops c [])
  unfolding commit_transaction
  commit-Keeps c tx loaded f = (
    tt,
    λ now _.
        Keeps-bind bank supply {B = Transaction} (λ _. Settled c 0 0) (Ends tx.num_ops tx.ops c [])
          c (unload_transaction_accounts loaded) _
          (unload_all-Keeps bank supply c c 0 0 loaded (record { free = f; balance = refl }))
          (λ _ d h. record {
            free = h.free;
            performed = 0;
            bounded = omega arith;
            moved = h.balance;
            complete = λ _. refl;
            ended = λ e. cc;
            same_count = refl;
            same_ops = refl;
          }),
  )

  abort-Keeps :
      (c d : Claim) (tx : Transaction) (loaded : List ℤ) (ops : List Operation)
      → Settled c 0 0 d
      → Keeps bank supply d (abort_transaction tx loaded) (Ends tx.num_ops tx.ops c ops)
  unfolding abort_transaction
  abort-Keeps c d tx loaded ops s = (
    tt,
    λ now _.
        Keeps-bind bank supply {B = Transaction} (λ _. Settled c 0 0) (Ends tx.num_ops tx.ops c ops)
          d (unload_transaction_accounts loaded) _ (unload_all-Keeps bank supply c d 0 0 loaded s)
          (λ _ e h. record {
            free = h.free;
            performed = 0;
            bounded = omega arith;
            moved = h.balance;
            complete = λ e. cc;
            ended = λ e. cc;
            same_count = refl;
            same_ops = refl;
          }),
  )

  -- One operation more, before those of the rest of the run.
  Ends-cons :
      (c d e : Claim) (op : Operation) (ops : List Operation) (num_ops : ℕ)
      (all_ops : List Operation) (tx : Transaction)
      → Settled c (paid_in op.type op.amount_centavos) (taken_out op.type op.amount_centavos) d
      → Ends num_ops all_ops d ops tx e
      → Ends num_ops all_ops c (op ∷ ops) tx e
  Ends-cons c d e op ops num_ops all_ops tx h g = record {
    free = g.free;
    performed = suc g.performed;
    bounded = omega (arith, g.bounded);
    moved = omega (arith, g.moved, h.balance);
    complete = λ committed. ap suc (g.complete committed);
    ended = g.ended;
    same_count = g.same_count;
    same_ops = g.same_ops;
  }

  next_round-Keeps :
      (c d : Claim) (tx : Transaction) (op : Operation) (ops : List Operation) (r : Bool × List ℤ)
      → all_paid_in (op ∷ ops) ≤ c.purse
      → Performs bank c
          (paid_in op.type op.amount_centavos)
          (taken_out op.type op.amount_centavos)
          r
          d
      → ((l : List ℤ)
          → IsFree d
          → AllFound bank l
          → all_paid_in ops ≤ d.purse
          → Keeps bank supply d (run_operations bank tx ops l) (Ends tx.num_ops tx.ops d ops))
      → Keeps bank supply d
          (if r.0 then run_operations bank tx ops r.1 else abort_transaction tx r.1)
          (Ends tx.num_ops tx.ops c (op ∷ ops))
  next_round-Keeps c d tx op ops (false, loaded) fits h rest =
      abort-Keeps c d tx loaded (op ∷ ops) h.settled
  next_round-Keeps c d tx op ops (true, loaded) fits h rest =
      Keeps-mono bank supply (Ends tx.num_ops tx.ops d ops) (Ends tx.num_ops tx.ops c (op ∷ ops)) d
        (run_operations bank tx ops loaded)
        (rest loaded h.settled.free h.all_found (omega (arith, h.settled.balance)))
        (λ tx' e g. Ends-cons c d e op ops tx.num_ops tx.ops tx' h.settled g)

  run_operations-Keeps :
      (c : Claim) (tx : Transaction) (ops : List Operation) (loaded : List ℤ)
      → IsFree c
      → AllFound bank loaded
      → all_paid_in ops ≤ c.purse
      → Keeps bank supply c (run_operations bank tx ops loaded) (Ends tx.num_ops tx.ops c ops)
  unfolding run_operations
  run_operations-Keeps c tx [] loaded f all fits = commit-Keeps c tx loaded f
  run_operations-Keeps c tx (op ∷ ops) loaded f all fits =
      Keeps-bind bank supply {B = Transaction}
        (Performs bank c (paid_in op.type op.amount_centavos)
          (taken_out op.type op.amount_centavos))
        (Ends tx.num_ops tx.ops c (op ∷ ops)) c (run_operation bank tx.tx_id op op.type loaded) _
        (run_operation-Keeps c tx.tx_id op op.type loaded f all (omega arith))
        (λ r d h.
          next_round-Keeps c d tx op ops r fits h
            (λ l g a e. run_operations-Keeps d tx ops l g a e))

  -- A worker thread that starts free, with a purse that covers the deposits of its transaction, keeps
  -- to the logic to its end.
  pub execute_transaction-Keeps :
      (c : Claim) (tx : Transaction)
      → IsFree c
      → all_paid_in (take tx.num_ops tx.ops) ≤ c.purse
      → Keeps bank supply c
          (execute_transaction bank tx)
          (Ends tx.num_ops tx.ops c (take tx.num_ops tx.ops))
  unfolding execute_transaction transaction_has_loaded_account
  execute_transaction-Keeps c tx f fits = (
    f,
    λ _ _. (
      tt,
      λ now _.
          run_operations-Keeps c
            (record tx {
              actual_start = now;
              wait_ticks = sub_int now tx.start_tick;
              status = tx_running;
            })
            (take tx.num_ops tx.ops) [] f (λ id h. cc) fits,
    ),
  )
