-- ===== src/Tests/Steps.antt =====
-- The theorems on single accesses, in states on the way of the small bank's first thread.
use cmsc125_lab3_sabandal_sa.Common.{
  ℕ, zero, suc, ◌<◌, ◌≡◌, ◌≢◌, refl, subst, List, [], ◌∷◌, ℤ, pos, arith, none, false, ◌≤ℤ◌, dec_lt,
  ℕ_discrete, total,
}
use cmsc125_lab3_sabandal_sa.CInt.{IsInt}
use cmsc125_lab3_sabandal_sa.BufferPool.{inserted, no_slot}
use cmsc125_lab3_sabandal_sa.Machine.{
  Shared, store_balance, pin_loaded, await_tick, perform, Prog, ret, call,
}
use cmsc125_lab3_sabandal_sa.Transaction.{Transaction}
use cmsc125_lab3_sabandal_sa.Threads.{run, launch}
use cmsc125_lab3_sabandal_sa.Threads.Exclusion.{no_balance_race, pool_sections-exclusive}
use cmsc125_lab3_sabandal_sa.Threads.Conservation.{balance-IsInRange}
use cmsc125_lab3_sabandal_sa.Threads.PoolBounds.{place_account-finds_slot}
use cmsc125_lab3_sabandal_sa.Threads.Progress.{WaitsForRoom, deadlock_free-WaitsForRoom}
use cmsc125_lab3_sabandal_sa.Threads.Launch.{ops_of}
use cmsc125_lab3_sabandal_sa.Serial.Room.{AllNamed}
use cmsc125_lab3_sabandal_sa.Pins.Demand.{WaitsForClock, deadlock_free-WaitsForClock}
use cmsc125_lab3_sabandal_sa.Tests.Fixtures.{
  account, two_transactions, small_memory, small-IsReady, late_transactions, late-IsReady,
}
use cmsc125_lab3_sabandal_sa.Tests.Runs.{alone, in_turn, results}

no_balance_race_example : ◌≡◌ {A = ℕ} 0 0
unfolding results dec_lt ℕ_discrete
no_balance_race_example =
    no_balance_race 2 two_transactions small_memory small-IsReady (alone 12) 0 0 0 (pos 1200)
      (store_balance 0 (pos 1200)) _ _ (omega arith) (omega arith) refl refl refl

pool_sections-exclusive_example : ◌≡◌ {A = ℕ} 0 0
unfolding results dec_lt ℕ_discrete
pool_sections-exclusive_example =
    pool_sections-exclusive 2 two_transactions small_memory small-IsReady (alone 3) 0 0
      (pin_loaded (pos 1)) (pin_loaded (pos 1)) _ _ (omega arith) (omega arith) refl refl refl refl

balance-IsInRange_example : (pos 0 ≤ℤ pos 1100) × (pos 1100 ≤ℤ pos 1700) × IsInt (pos 1100)
unfolding results dec_lt ℕ_discrete total
balance-IsInRange_example =
    balance-IsInRange 2 two_transactions small_memory small-IsReady (in_turn 46) 0
      (account (pos 1) (pos 1100)) refl

place_account-finds_slot_example : inserted false ≢ no_slot
unfolding results dec_lt ℕ_discrete
place_account-finds_slot_example =
    place_account-finds_slot 2 two_transactions small_memory small-IsReady (alone 7) 0 0 (pos 1) _
      (inserted false) _ (omega arith) refl refl

-- The next access of a thread waits.
abbrev IsBlocked : Prog Transaction → Shared → Type 0
IsBlocked (ret tx) m = ⊥
IsBlocked (call a k) m = perform a m ≡ none

late-IsBlocked :
    (i : ℕ)
    → i < 2
    → IsBlocked ((run 2 (launch late_transactions small_memory) []).worker i) small_memory
unfolding results dec_lt ℕ_discrete
late-IsBlocked zero lt = refl
late-IsBlocked (suc zero) lt = refl
late-IsBlocked (suc (suc i)) lt = absurd (omega arith)

deadlock_free-WaitsForRoom_example :
    WaitsForRoom (await_tick (pos 5)) (run 2 (launch late_transactions small_memory) []).memory
unfolding results dec_lt ℕ_discrete
deadlock_free-WaitsForRoom_example =
    deadlock_free-WaitsForRoom 2 late_transactions small_memory late-IsReady []
      (λ i a k lt e. subst (λ p. IsBlocked p small_memory) e (late-IsBlocked i lt)) 0
      (await_tick (pos 5)) _ (omega arith) refl

abbrev first_two : List ℤ
first_two = pos 1 ∷ pos 2 ∷ []

late-AllNamed : (i : ℕ) → i < 2 → AllNamed first_two (ops_of (late_transactions i))
late-AllNamed zero lt = (refl, ((refl, refl), tt))
late-AllNamed (suc zero) lt = (refl, (refl, tt))
late-AllNamed (suc (suc i)) lt = absurd (omega arith)

deadlock_free-WaitsForClock_example :
    WaitsForClock (await_tick (pos 5)) (run 2 (launch late_transactions small_memory) []).memory
unfolding results dec_lt ℕ_discrete total
deadlock_free-WaitsForClock_example =
    deadlock_free-WaitsForClock 2 late_transactions small_memory late-IsReady (omega arith) (λ i. 1)
      (λ i. first_two) (λ i lt. omega arith) late-AllNamed (omega arith) []
      (λ i a k lt e. subst (λ p. IsBlocked p small_memory) e (late-IsBlocked i lt)) 0
      (await_tick (pos 5)) _ (omega arith) refl
