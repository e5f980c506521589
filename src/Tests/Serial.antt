-- ===== src/Tests/Serial.antt =====
-- The small bank's transactions one after another, and a transaction of six accounts alone.
use cmsc125_lab3_sabandal_sa.Common.{
  ℕ, zero, suc, ◌≡◌, refl, Option, none, some, List, [], ◌∷◌, pos, arith, ◌+ℤ◌, ◌-ℤ◌, take, dec_lt,
  ℕ_discrete,
}
use cmsc125_lab3_sabandal_sa.CInt.{wrap_int, add_int, sub_int}
use cmsc125_lab3_sabandal_sa.Bank.{scan, direct_slot, get_account}
use cmsc125_lab3_sabandal_sa.Machine.{Shared, exec}
use cmsc125_lab3_sabandal_sa.Transaction.{TxStatus, Transaction}
use cmsc125_lab3_sabandal_sa.Transaction.Execute.{execute_transaction}
use cmsc125_lab3_sabandal_sa.Serial.{Ledger, apply_operation, run_ledger}
use cmsc125_lab3_sabandal_sa.Serial.Mirror.{Mirrors}
use cmsc125_lab3_sabandal_sa.Serial.Refinement.{begun, finished, Ends, execute_transaction-refines}
use cmsc125_lab3_sabandal_sa.Serial.Room.{execute_transaction-returns}
use cmsc125_lab3_sabandal_sa.Serial.Schedule.{ledger_of, ready-Mirrors, serial_ledger}
use cmsc125_lab3_sabandal_sa.Tests.Fixtures.{
  first_transaction, second_transaction, two_transactions, small_bank, small_memory, small-IsReady,
}

abbrev small_ledger : Ledger
small_ledger = ledger_of small_memory

small-Mirrors : Mirrors small_bank (pos 0) [] small_ledger small_memory
small-Mirrors = ready-Mirrors 2 two_transactions small_memory small-IsReady

execute_transaction-refines_example :
    Ends small_bank
      (pos 0)
      (begun (pos 0) first_transaction)
      (run_ledger (pos 1) (take 2 first_transaction.ops) [] small_ledger)
      (execute_transaction small_bank first_transaction)
      small_memory
execute_transaction-refines_example =
    execute_transaction-refines small_bank (pos 0) first_transaction small_ledger small_memory
      small-Mirrors refl

execute_transaction-returns_example :
    (status : TxStatus) × (l' : Ledger) × (m' : Shared) × (run_ledger
        (pos 1)
        (take 2 first_transaction.ops)
        []
        small_ledger
      ≡ some (status, l'))
    × (exec (execute_transaction small_bank first_transaction) small_memory
        ≡ some (finished small_bank (pos 0) (begun (pos 0) first_transaction) status, m'))
    × Mirrors small_bank (pos 0) [] l' m'
execute_transaction-returns_example =
    execute_transaction-returns small_bank (pos 0) first_transaction small_ledger small_memory
      (pos 1 ∷ pos 2 ∷ []) small-Mirrors refl (omega arith) (refl, ((refl, refl), tt))

-- Bob's transaction may start at tick 2, and is served before Alice's all the same.
abbrev starting : ℕ → Transaction
starting zero = first_transaction
starting (suc i) = record second_transaction { start_tick = pos 2 }

abbrev settled : Option (List TxStatus × Ledger) → List TxStatus × Ledger
settled none = ([], small_ledger)
settled (some done) = done

unfoldable small_done : List TxStatus × Ledger
unfolding serial_ledger run_ledger apply_operation scan direct_slot get_account wrap_int add_int
    sub_int ◌+ℤ◌ ◌-ℤ◌
small_done = settled (serial_ledger starting (1 ∷ 0 ∷ []) small_ledger)

test_balance : small_done.1.balances (pos 1) ≡ some (pos 1100)
unfolding small_done dec_lt ℕ_discrete
test_balance = refl

test_other_balance : small_done.1.balances (pos 2) ≡ some (pos 550)
unfolding small_done dec_lt ℕ_discrete
test_other_balance = refl
