-- ===== src/Tests/Pins.antt =====
-- The theorems on the pins of the buffer pool, for the two threads of the small bank.
use cmsc125_lab3_sabandal_sa.Common.{◌≡◌, ◌≢◌, refl, false, pos, arith, dec_lt, ℕ_discrete}
use cmsc125_lab3_sabandal_sa.BufferPool.{buffer_pool_size, absent, unpin_slot}
use cmsc125_lab3_sabandal_sa.Threads.{run, launch}
use cmsc125_lab3_sabandal_sa.Threads.Invariant.{used}
use cmsc125_lab3_sabandal_sa.Threads.Peak.{most_used, peak_usage-most_used}
use cmsc125_lab3_sabandal_sa.Pins.Slots.{SlotsOk}
use cmsc125_lab3_sabandal_sa.Pins.System.{unpin_account-finds_slot, pool-SlotsOk, ended-pool_empty}
use cmsc125_lab3_sabandal_sa.Tests.Fixtures.{two_transactions, small_memory, small-IsReady}
use cmsc125_lab3_sabandal_sa.Tests.Runs.{alone, in_turn, results, small-ended}

unpin_account-finds_slot_example :
    unpin_slot (run 2 (launch two_transactions small_memory) (alone 33)).memory.pool.slots (pos 2)
    ≢ absent
unfolding results dec_lt ℕ_discrete
unpin_account-finds_slot_example =
    unpin_account-finds_slot 2 two_transactions small_memory small-IsReady (omega arith) (alone 33)
      0 (pos 2) _ (omega arith) refl

ended-pool_empty_example :
    (used (run 2 (launch two_transactions small_memory) (in_turn 46)).memory.pool.slots ≡ 0)
    × ((run 2 (launch two_transactions small_memory) (in_turn 46)).memory.pool.empty_slots
        ≡ buffer_pool_size)
    × ((run 2 (launch two_transactions small_memory) (in_turn 46)).memory.pool.full_slots ≡ 0)
    × ((run 2 (launch two_transactions small_memory) (in_turn 46)).memory.pool.pool_lock ≡ false)
ended-pool_empty_example =
    ended-pool_empty 2 two_transactions small_memory small-IsReady (omega arith) (in_turn 46)
      results small-ended

pool-SlotsOk_example :
    SlotsOk (run 2 (launch two_transactions small_memory) (alone 12)).memory.pool.slots
pool-SlotsOk_example =
    pool-SlotsOk 2 two_transactions small_memory small-IsReady (omega arith) (alone 12)

peak_usage-most_used_example :
    (run 2 (launch two_transactions small_memory) (in_turn 46)).memory.pool.peak_usage
    ≡ pos (most_used 2 (launch two_transactions small_memory) (in_turn 46))
peak_usage-most_used_example =
    peak_usage-most_used 2 two_transactions small_memory small-IsReady (in_turn 46)
