-- ===== src/Pins/Workers.antt =====
-- `execute_transaction` of src/core/transaction.c: a thread pins exactly the accounts on its list,
-- and ends without a pin.
use cmsc125_lab3_sabandal_sa.Common.{
  ℕ, suc, ◌≤◌, refl, List, [], ◌∷◌, ℤ, arith, take, length, ==ℤ-refl,
}
use cmsc125_lab3_sabandal_sa.Bank.{Bank}
use cmsc125_lab3_sabandal_sa.BufferPool.Calls.{unload_account}
use cmsc125_lab3_sabandal_sa.Timer.{wait_until_tick}
use cmsc125_lab3_sabandal_sa.Transaction.{Operation, Transaction}
use cmsc125_lab3_sabandal_sa.Transaction.Execute.{
  record_transaction_end, unload_transaction_accounts, abort_transaction, run_operation,
  commit_transaction, run_operations, execute_transaction,
}
use cmsc125_lab3_sabandal_sa.Serial.Refinement.{begun}
use cmsc125_lab3_sabandal_sa.Serial.Room.{Within-nil, AllNamed}
use cmsc125_lab3_sabandal_sa.Pins.{Pins, KeepsPins, KeepsPins-bind, NonePinned}
use cmsc125_lab3_sabandal_sa.Pins.Code.{Removed, unload_account-KeepsPins}
use cmsc125_lab3_sabandal_sa.Pins.Operations.{
  PinnedBy, HeldBy, Holding, KeepsPins-if, run_operation-Holding,
}

module _ (room : ℕ) (needed : List ℤ) (few : length needed ≤ suc room) (bank : Bank) where
  unload_all-NonePinned :
      (p : Pins) (loaded : List ℤ)
      → PinnedBy loaded p
      → KeepsPins room p (unload_transaction_accounts loaded) NonePinned
  unfolding unload_transaction_accounts
  unload_all-NonePinned p [] h = h
  unload_all-NonePinned p (a ∷ loaded) h =
      KeepsPins-bind room (Removed p a) NonePinned p (unload_account a)
        (λ _. unload_transaction_accounts loaded)
        (unload_account-KeepsPins room p a (ground (arith, h a, ==ℤ-refl a)))
        (λ _ p' removed. unload_all-NonePinned p' loaded (λ j. omega (arith, removed j, h j)))

  commit_transaction-NonePinned :
      (p : Pins) (tx : Transaction) (loaded : List ℤ)
      → PinnedBy loaded p
      → KeepsPins room p (commit_transaction tx loaded) NonePinned
  unfolding commit_transaction record_transaction_end
  commit_transaction-NonePinned p tx loaded h = (
    tt,
    λ _ _.
        KeepsPins-bind room NonePinned NonePinned p (unload_transaction_accounts loaded) _
          (unload_all-NonePinned p loaded h) (λ _ p' none_left. none_left),
  )

  abort_transaction-NonePinned :
      (p : Pins) (tx : Transaction) (loaded : List ℤ)
      → PinnedBy loaded p
      → KeepsPins room p (abort_transaction tx loaded) NonePinned
  unfolding abort_transaction record_transaction_end
  abort_transaction-NonePinned p tx loaded h = (
    tt,
    λ _ _.
        KeepsPins-bind room NonePinned NonePinned p (unload_transaction_accounts loaded) _
          (unload_all-NonePinned p loaded h) (λ _ p' none_left. none_left),
  )

  run_operations-NonePinned :
      (tx : Transaction) (ops : List Operation) (p : Pins) (loaded : List ℤ)
      → AllNamed needed ops
      → HeldBy needed loaded p
      → KeepsPins room p (run_operations bank tx ops loaded) NonePinned
  unfolding run_operations
  run_operations-NonePinned tx [] p loaded names h = commit_transaction-NonePinned p tx loaded h.0
  run_operations-NonePinned tx (op ∷ ops) p loaded (names, others) h =
      KeepsPins-bind room (Holding needed) NonePinned p
        (run_operation bank tx.tx_id op op.type loaded) _
        (run_operation-Holding room needed few bank tx.tx_id op op.type p loaded names h)
        (λ (go_on, loaded') p' h'.
          KeepsPins-if room NonePinned p' go_on (run_operations bank tx ops loaded')
            (abort_transaction tx loaded') (run_operations-NonePinned tx ops p' loaded' others h')
            (abort_transaction-NonePinned p' tx loaded' h'.0))

  -- The code of a thread that starts without a pin, and names needed accounts only.
  pub execute_transaction-NonePinned :
      (tx : Transaction)
      → AllNamed needed (take tx.num_ops tx.ops)
      → KeepsPins room (λ j. 0) (execute_transaction bank tx) NonePinned
  unfolding execute_transaction wait_until_tick
  execute_transaction-NonePinned tx names = (
    ([], omega arith, λ j. refl),
    λ _ _. (
      tt,
      λ now _.
          run_operations-NonePinned (begun now tx) (take tx.num_ops tx.ops) (λ j. 0) [] names
            ((λ j. refl), Within-nil needed),
    ),
  )
