-- ===== src/BufferPool/Calls.antt =====
-- The functions of src/concurrency/buffer_pool.c that threads call, with their mutex and semaphore
-- operations in order. `sem_trywait` fails only with EAGAIN, since no signal is handled, and then
-- the blocked load is counted.
use cmsc125_lab3_sabandal_sa.Common.{ℕ, Bool, true, false, Option, none, some, ℤ, if◌then◌else◌}
use cmsc125_lab3_sabandal_sa.Bank.{Bank}
use cmsc125_lab3_sabandal_sa.BufferPool.{Placed, already, inserted, no_slot}
use cmsc125_lab3_sabandal_sa.Machine.{
  lock_pool, unlock_pool, pin_loaded, place_account, unpin_account, look_up, count_blocked,
  try_empty, wait_empty, post_empty, wait_full, post_full, yield_cpu, Prog, ret, access, ◌>>=◌,
  ◌>>◌,
}
use cmsc125_lab3_sabandal_sa.LockMgr.{slot_id}

-- An empty slot is claimed: at once, or after the blocked load has been counted.
unfoldable pub claim_empty : Bool → Prog (Unit {0})
claim_empty true = ret tt
claim_empty false = do access lock_pool; access count_blocked; access unlock_pool; access wait_empty

-- What follows the critical section that places the account.
unfoldable pub after_place : Placed → Prog (Unit {0})
after_place already = access unlock_pool >> access post_empty
after_place (inserted true) = access unlock_pool >> access post_full >> access yield_cpu
after_place (inserted false) = access unlock_pool >> access post_full
after_place no_slot = access unlock_pool >> access post_empty

unfoldable pub load_slot : ℤ → ℕ → Prog (Unit {0})
unfolding claim_empty after_place
load_slot account_id account = do
  claim_empty (← access try_empty)
  access lock_pool
  after_place (← access (place_account account_id account))

unfoldable pub load_account : Bank → Option ℕ → Prog (Unit {0})
unfolding load_slot
load_account bank none = ret tt
load_account bank (some account) = do
  access lock_pool
  loaded ← access (pin_loaded (slot_id bank account))
  access unlock_pool
  if loaded then ret tt else load_slot (slot_id bank account) account

unfoldable pub after_unpin : Bool → Prog (Unit {0})
after_unpin true = access unlock_pool >> access wait_full >> access post_empty
after_unpin false = access unlock_pool

unfoldable pub unload_account : ℤ → Prog (Unit {0})
unfolding after_unpin
unload_account account_id = do access lock_pool; after_unpin (← access (unpin_account account_id))

unfoldable pub is_account_loaded : ℤ → Prog Bool
is_account_loaded account_id = do
  access lock_pool
  loaded ← access (look_up account_id)
  access unlock_pool
  ret loaded
