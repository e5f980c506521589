-- ===== src/Tests/Runs.antt =====
-- The two threads of the small bank, access by access.
use cmsc125_lab3_sabandal_sa.Common.{
  ℕ, zero, suc, ◌<◌, ◌≡◌, refl, Bool, true, false, List, [], ◌∷◌, arith, ◌+ℤ◌, ◌-ℤ◌, dec_lt,
  ℕ_discrete,
}
use cmsc125_lab3_sabandal_sa.CInt.{wrap_int, add_int, sub_int}
use cmsc125_lab3_sabandal_sa.Bank.{scan, direct_slot, get_account}
use cmsc125_lab3_sabandal_sa.Bank.Money.{
  read_balance, get_balance, put_in, deposit, take_out, withdraw, move_locked, move, transfer,
}
use cmsc125_lab3_sabandal_sa.BufferPool.{
  init_buffer_slots, init_buffer_pool, pin_slot, fill_slot, place, unpin_slot, unpin, slots_hold,
}
use cmsc125_lab3_sabandal_sa.BufferPool.Calls.{
  claim_empty, after_place, load_slot, load_account, after_unpin, unload_account,
}
use cmsc125_lab3_sabandal_sa.LockMgr.{
  lock_account, unlock_account, read_lock_account, read_unlock_account, validate_accounts,
  lock_accounts_in_order, unlock_accounts,
}
use cmsc125_lab3_sabandal_sa.Machine.{perform, Prog, ret, call}
use cmsc125_lab3_sabandal_sa.Timer.{wait_until_tick, timer_round}
use cmsc125_lab3_sabandal_sa.Transaction.{Transaction, blank_transaction, tx_committed}
use cmsc125_lab3_sabandal_sa.Transaction.Execute.{
  record_transaction_end, transaction_has_loaded_account, load_found, load_account_for_transaction,
  unload_transaction_accounts, abort_transaction, load_both, perform_deposit, perform_withdraw,
  perform_transfer, perform_balance, run_operation, commit_transaction, run_operations,
  execute_transaction,
}
use cmsc125_lab3_sabandal_sa.Threads.{Turn, work, tick, take_turn, run, launch}
use cmsc125_lab3_sabandal_sa.Threads.Invariant.{money_in}
use cmsc125_lab3_sabandal_sa.Tests.Fixtures.{two_transactions, small_memory}

abbrev pub in_turn : ℕ → List Turn
in_turn zero = []
in_turn (suc n) = work 0 ∷ work 1 ∷ tick ∷ in_turn n

abbrev pub alone : ℕ → List Turn
alone zero = []
alone (suc n) = work 0 ∷ alone n

abbrev outcome : Prog Transaction → Transaction
outcome (ret tx) = tx
outcome (call a k) = blank_transaction

unfoldable pub results : ℕ → Transaction
unfolding run launch take_turn perform execute_transaction run_operations commit_transaction
    run_operation perform_balance perform_transfer perform_withdraw perform_deposit load_both
    abort_transaction unload_transaction_accounts load_account_for_transaction load_found
    transaction_has_loaded_account record_transaction_end wait_until_tick timer_round lock_account
    unlock_account read_lock_account read_unlock_account validate_accounts lock_accounts_in_order
    unlock_accounts claim_empty after_place load_slot load_account after_unpin unload_account
    init_buffer_slots init_buffer_pool pin_slot fill_slot place unpin_slot unpin slots_hold
    read_balance get_balance put_in deposit take_out withdraw move_locked move transfer scan
    direct_slot get_account wrap_int add_int sub_int ◌+ℤ◌ ◌-ℤ◌
results i = outcome ((run 2 (launch two_transactions small_memory) (in_turn 46)).worker i)

abbrev is_done : Prog Transaction → Bool
is_done (ret tx) = true
is_done (call a k) = false

done-ret : (p : Prog Transaction) → is_done p ≡ true → p ≡ ret (outcome p)
done-ret (ret tx) h = refl
done-ret (call a k) h = cc

test_ended :
    (i : ℕ)
    → i < 2
    → is_done ((run 2 (launch two_transactions small_memory) (in_turn 46)).worker i) ≡ true
unfolding results dec_lt ℕ_discrete
test_ended zero lt = refl
test_ended (suc zero) lt = refl
test_ended (suc (suc i)) lt = absurd (omega arith)

pub small-ended :
    (i : ℕ)
    → i < 2
    → (run 2 (launch two_transactions small_memory) (in_turn 46)).worker i ≡ ret (results i)
unfolding results
small-ended i lt =
    done-ret ((run 2 (launch two_transactions small_memory) (in_turn 46)).worker i)
      (test_ended i lt)

test_money :
    money_in (run 2 (launch two_transactions small_memory) (in_turn 46)).memory.bank.accounts ≡ 1650
unfolding results dec_lt ℕ_discrete
test_money = refl

pub small-committed : (i : ℕ) → i < 2 → (results i).status ≡ tx_committed
unfolding results dec_lt ℕ_discrete
small-committed zero lt = refl
small-committed (suc zero) lt = refl
small-committed (suc (suc i)) lt = absurd (omega arith)
