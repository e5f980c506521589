-- ===== src/Serial/Refinement.antt =====
-- `execute_transaction` of src/core/transaction.c, with no other thread about, against the ledger.
use cmsc125_lab3_sabandal_sa.Common.{
  ◌≡◌, refl, ap, ◌∙◌, Bool, true, false, Option, none, some, List, [], ◌∷◌, ℤ, ltb_ℤ, if◌then◌else◌,
  take,
}
use cmsc125_lab3_sabandal_sa.CInt.{sub_int}
use cmsc125_lab3_sabandal_sa.Bank.{Bank}
use cmsc125_lab3_sabandal_sa.Timer.{wait_until_tick}
use cmsc125_lab3_sabandal_sa.Machine.{
  Shared, read_tick, await_tick, perform, Prog, ret, exec, ◌>>=◌,
}
use cmsc125_lab3_sabandal_sa.Machine.Exec.{
  exec-call, exec-ret, exec-bind, exec-bind_none, exec-bind_assoc,
}
use cmsc125_lab3_sabandal_sa.Transaction.{
  OpType, op_deposit, op_withdraw, op_transfer, op_balance, Operation, TxStatus, tx_running,
  tx_committed, tx_aborted, Transaction,
}
use cmsc125_lab3_sabandal_sa.Transaction.Execute.{
  record_transaction_end, load_account_for_transaction, load_both, unload_transaction_accounts,
  abort_transaction, commit_transaction, perform_deposit, perform_withdraw, perform_transfer,
  perform_balance, run_operation, run_operations, execute_transaction,
}
use cmsc125_lab3_sabandal_sa.Serial.{
  Ledger, and_then, admit_for, apply_operation, after_operation, run_ledger,
}
use cmsc125_lab3_sabandal_sa.Serial.Mirror.{Mirrors, Follows}
use cmsc125_lab3_sabandal_sa.Serial.Loading.{
  LoadedBy, load_account_for_transaction-Follows, load_both-Follows,
  unload_transaction_accounts-end,
}
use cmsc125_lab3_sabandal_sa.Serial.Operations.{
  Does, deposit-Does, withdraw-Does, transfer-Does, balance-Does,
}

module _ (bank : Bank) (now : ℤ) (tx : Transaction) where
  -- The transaction record at the end.
  abbrev pub finished : TxStatus → Transaction
  finished status = record tx { actual_end = now; status = status }

  -- The code ends as the ledger says, with nothing loaded, or waits for ever if that has no end.
  abbrev pub Ends : Option (TxStatus × Ledger) → Prog Transaction → Shared → Type 0
  Ends none p m = exec p m ≡ none
  Ends (some (status, l)) p m =
      (m' : Shared) × (exec p m ≡ some (finished status, m')) × Mirrors bank now [] l m'

  pub Ends-after :
      (o : Option (TxStatus × Ledger)) (p q : Prog Transaction) (m m' : Shared)
      → exec p m ≡ exec q m'
      → Ends o q m'
      → Ends o p m
  Ends-after none p q m m' e h = e ∙ h
  Ends-after (some (status, l)) p q m m' e (n, h, mirror) = (n, e ∙ h, mirror)

  Ends-bind :
      {A : Type 0} (Q : A → Shared → Type 0) (o : Option A) (g : A → Option (TxStatus × Ledger))
      (p : Prog A) (f : A → Prog Transaction) (m : Shared)
      → Follows Q o p m
      → ((x : A) (m' : Shared) → Q x m' → Ends (g x) (f x) m')
      → Ends (and_then o g) (p >>= f) m
  Ends-bind Q none g p f m h step = exec-bind_none p f m h
  Ends-bind Q (some x) g p f m (m', e, q) step =
      Ends-after (g x) (p >>= f) (f x) m m' (exec-bind p f m m' x e) (step x m' q)

  module _ (loaded : List ℤ) (l : Ledger) (m : Shared) (mirror : Mirrors bank now loaded l m) where
    commit_transaction-Ends : Ends (some (tx_committed, l)) (commit_transaction tx loaded) m
    unfolding commit_transaction record_transaction_end perform
    commit_transaction-Ends =
        let (m', e, mirror') = unload_transaction_accounts-end bank now l loaded m mirror in
        (
          m',
          exec-call read_tick _ m m m.global_tick refl
              ∙ exec-bind (unload_transaction_accounts loaded) _ m m' tt e
              ∙ exec-ret _ m'
              ∙ ap (λ t. some (record tx { actual_end = t; status = tx_committed }, m'))
                  mirror.clock,
          mirror',
        )

    abort_transaction-Ends : Ends (some (tx_aborted, l)) (abort_transaction tx loaded) m
    unfolding abort_transaction record_transaction_end perform
    abort_transaction-Ends =
        let (m', e, mirror') = unload_transaction_accounts-end bank now l loaded m mirror in
        (
          m',
          exec-call read_tick _ m m m.global_tick refl
              ∙ exec-bind (unload_transaction_accounts loaded) _ m m' tt e
              ∙ exec-ret _ m'
              ∙ ap (λ t. some (record tx { actual_end = t; status = tx_aborted }, m')) mirror.clock,
          mirror',
        )

  -- What follows an operation.
  abbrev next : List Operation → Bool × List ℤ → Prog Transaction
  next ops (go_on, loaded) =
      if go_on then run_operations bank tx ops loaded else abort_transaction tx loaded

  module _ (ops : List Operation)
      (rest : (loaded : List ℤ) (l : Ledger) (m : Shared)
        → Mirrors bank now loaded l m
        → Ends (run_ledger tx.tx_id ops loaded l) (run_operations bank tx ops loaded) m)
      (l : Ledger) (op : Operation) where
    -- An operation whose accounts are loaded, and the others.
    performed-Ends :
        (loaded : List ℤ) (m : Shared) (mirror : Mirrors bank now loaded l m)
        (p : Prog (Bool × List ℤ)) (r : Bool × Ledger)
        → Does bank now loaded l m mirror op p r
        → Ends (after_operation r (run_ledger tx.tx_id ops loaded)) (p >>= next ops) m
    performed-Ends loaded m mirror p (true, l') (m', e, mirror') =
        Ends-after (run_ledger tx.tx_id ops loaded l') (p >>= next ops)
          (run_operations bank tx ops loaded) m m' (exec-bind p (next ops) m m' (true, loaded) e)
          (rest loaded l' m' mirror')
    performed-Ends loaded m mirror p (false, l') (m', e, mirror') =
        Ends-after (some (tx_aborted, l')) (p >>= next ops) (abort_transaction tx loaded) m m'
          (exec-bind p (next ops) m m' (false, loaded) e)
          (abort_transaction-Ends loaded l' m' mirror')

    loaded-Ends :
        (o : Option (Bool × List ℤ)) (load : Prog (Bool × List ℤ))
        (perf : Bool × List ℤ → Prog (Bool × List ℤ)) (r : Bool × Ledger) (m : Shared)
        → Follows (LoadedBy bank now l) o load m
        → ((loaded : List ℤ) → perf (false, loaded) ≡ ret (false, loaded))
        → ((loaded : List ℤ) (m' : Shared) (mirror : Mirrors bank now loaded l m')
            → Does bank now loaded l m' mirror op (perf (true, loaded)) r)
        → Ends
            (and_then o λ (ok, loaded).
              if ok
              then after_operation r (run_ledger tx.tx_id ops loaded)
              else some (tx_aborted, l))
            ((load >>= perf) >>= next ops)
            m
    loaded-Ends o load perf r m follows failed done =
        Ends-after _ _ (load >>= λ x. perf x >>= next ops) m m
          (exec-bind_assoc load perf (next ops) m)
          (Ends-bind (LoadedBy bank now l) o _ load (λ x. perf x >>= next ops) m follows
            (λ (ok, loaded) m' mirror. either ok loaded m' mirror))
      where
        either :
            (ok : Bool) (loaded : List ℤ) (m' : Shared)
            → Mirrors bank now loaded l m'
            → Ends
                (if ok
                  then after_operation r (run_ledger tx.tx_id ops loaded)
                  else some (tx_aborted, l))
                (perf (ok, loaded) >>= next ops)
                m'
        either true loaded m' mirror =
            performed-Ends loaded m' mirror (perf (true, loaded)) r (done loaded m' mirror)
        either false loaded m' mirror =
            Ends-after (some (tx_aborted, l)) (perf (false, loaded) >>= next ops)
              (abort_transaction tx loaded) m' m'
              (ap (λ p. exec (p >>= next ops) m') (failed loaded))
              (abort_transaction-Ends loaded l m' mirror)

    operation-Ends :
        (type : OpType) (loaded : List ℤ) (m : Shared)
        → Mirrors bank now loaded l m
        → Ends
            (and_then (admit_for l loaded op type) λ (ok, loaded').
              if ok
              then after_operation
                  (apply_operation tx.tx_id l op type)
                  (run_ledger tx.tx_id ops loaded')
              else some (tx_aborted, l))
            (run_operation bank tx.tx_id op type loaded >>= next ops)
            m
    unfolding run_operation apply_operation perform_deposit perform_withdraw perform_transfer
        perform_balance
    operation-Ends op_deposit loaded m mirror =
        loaded-Ends _ (load_account_for_transaction bank loaded op.account_id)
          (perform_deposit bank op) _ m
          (load_account_for_transaction-Follows bank now l loaded m mirror op.account_id)
          (λ x. refl) (λ loaded' m' mirror'. deposit-Does bank now loaded' l m' mirror' op)
    operation-Ends op_withdraw loaded m mirror =
        loaded-Ends _ (load_account_for_transaction bank loaded op.account_id)
          (perform_withdraw bank op) _ m
          (load_account_for_transaction-Follows bank now l loaded m mirror op.account_id)
          (λ x. refl) (λ loaded' m' mirror'. withdraw-Does bank now loaded' l m' mirror' op)
    operation-Ends op_transfer loaded m mirror =
        loaded-Ends _ (load_both bank loaded op.account_id op.target_account)
          (perform_transfer bank op) _ m
          (load_both-Follows bank now l loaded m mirror op.account_id op.target_account) (λ x. refl)
          (λ loaded' m' mirror'. transfer-Does bank now loaded' l m' mirror' op)
    operation-Ends op_balance loaded m mirror =
        loaded-Ends _ (load_account_for_transaction bank loaded op.account_id)
          (perform_balance bank tx.tx_id op) _ m
          (load_account_for_transaction-Follows bank now l loaded m mirror op.account_id)
          (λ x. refl) (λ loaded' m' mirror'. balance-Does bank now loaded' l m' mirror' op tx.tx_id)

  run_operations-Ends :
      (ops : List Operation) (loaded : List ℤ) (l : Ledger) (m : Shared)
      → Mirrors bank now loaded l m
      → Ends (run_ledger tx.tx_id ops loaded l) (run_operations bank tx ops loaded) m
  unfolding run_operations run_ledger
  run_operations-Ends [] loaded l m mirror = commit_transaction-Ends loaded l m mirror
  run_operations-Ends (op ∷ ops) loaded l m mirror =
      operation-Ends ops (run_operations-Ends ops) l op op.type loaded m mirror

-- The record once the transaction has started at tick `now`.
abbrev pub begun : ℤ → Transaction → Transaction
begun now tx = record tx {
  actual_start = now;
  wait_ticks = sub_int now tx.start_tick;
  status = tx_running;
}

-- A transaction run alone does what the ledger says. From a memory that mirrors a ledger and has no
-- account loaded, at a tick that is not before the transaction's start: if the ledger's run of the
-- operations has a result, then `execute_transaction` returns with that status and the tick as its
-- start and end, and leaves a memory that mirrors the ledger's, all locks free and the pool empty
-- again. If it has none, for want of room in the pool, the call never returns.
pub execute_transaction-refines :
    (bank : Bank) (now : ℤ) (tx : Transaction) (l : Ledger) (m : Shared)
    → Mirrors bank now [] l m
    → ltb_ℤ now tx.start_tick ≡ false
    → Ends bank now
        (begun now tx)
        (run_ledger tx.tx_id (take tx.num_ops tx.ops) [] l)
        (execute_transaction bank tx)
        m
unfolding execute_transaction wait_until_tick perform
execute_transaction-refines bank now tx l m mirror started =
    Ends-after bank now (begun now tx) (run_ledger tx.tx_id (take tx.num_ops tx.ops) [] l)
      (execute_transaction bank tx) (run_operations bank (begun now tx) (take tx.num_ops tx.ops) [])
      m m
      (exec-call (await_tick tx.start_tick) _ m m tt (
          ap (λ t. if t then none else some (tt, m))
            (ap (λ g. ltb_ℤ g tx.start_tick) mirror.clock ∙ started))
        ∙ exec-call read_tick _ m m m.global_tick refl
        ∙ ap (λ t. exec (run_operations bank (begun t tx) (take tx.num_ops tx.ops) []) m)
            mirror.clock)
      (run_operations-Ends bank now (begun now tx) (take tx.num_ops tx.ops) [] l m mirror)
