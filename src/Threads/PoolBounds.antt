-- ===== src/Threads/PoolBounds.antt =====
-- The buffer pool as the threads use it: its bound, its semaphores, and its counters.
use cmsc125_lab3_sabandal_sa.Common.{
  ℕ, ◌+◌, ◌≤◌, ◌<◌, ◌≡◌, ◌≢◌, subst, false, some, List, ℤ, pos, arith, length, total, total-eq-zero,
}
use cmsc125_lab3_sabandal_sa.BufferPool.{buffer_pool_size, no_slot, Placed}
use cmsc125_lab3_sabandal_sa.Machine.{Shared, place_account, perform, Prog, ret, call}
use cmsc125_lab3_sabandal_sa.Transaction.{Transaction}
use cmsc125_lab3_sabandal_sa.Discipline.{Claim, IsFree, Keeps}
use cmsc125_lab3_sabandal_sa.Threads.{Turn, run, launch}
use cmsc125_lab3_sabandal_sa.Threads.Invariant.{used}
use cmsc125_lab3_sabandal_sa.Threads.Safety.{Safe, perform-Rely}
use cmsc125_lab3_sabandal_sa.Threads.Exclusion.{next-Allowed}
use cmsc125_lab3_sabandal_sa.Threads.Launch.{supply_of, IsReady, GoalOf, reachable-Safe}

module _ (n : ℕ) (transactions : ℕ → Transaction) (m : Shared) (ready : IsReady n transactions m)
    (ts : List Turn) where
  safe :
      Safe n m.bank
        (supply_of n transactions m)
        (GoalOf transactions)
        (run n (launch transactions m) ts)
  safe = reachable-Safe n transactions m ready ts

  -- The pool is bounded. In every state that a schedule reaches from a ready memory, the pool has
  -- its five slots, the slots in use and the units of `empty_slots` are at most five together, and
  -- `current_usage` is the number of slots in use.
  pub pool-IsBounded :
      (length (run n (launch transactions m) ts).memory.pool.slots ≡ buffer_pool_size)
      × (used (run n (launch transactions m) ts).memory.pool.slots
            + (run n (launch transactions m) ts).memory.pool.empty_slots
          ≤ buffer_pool_size)
      × ((run n (launch transactions m) ts).memory.pool.current_usage
          ≡ pos (used (run n (launch transactions m) ts).memory.pool.slots))
  pool-IsBounded = (safe.pool.size, omega (arith, safe.pool.empties), safe.pool.usage)

  -- A claimed unit of `empty_slots` is a free slot. In every state that a schedule reaches from a
  -- ready memory, a thread whose next access places an account in the pool finds the account or an
  -- unused slot there: the branch of `load_account` that finds neither is never taken.
  pub place_account-finds_slot :
      (i k : ℕ) (id : ℤ) (p : Placed → Prog Transaction) (r : Placed) (m' : Shared)
      → i < n
      → (run n (launch transactions m) ts).worker i ≡ call (place_account id k) p
      → perform (place_account id k) (run n (launch transactions m) ts).memory ≡ some (r, m')
      → r ≢ no_slot
  place_account-finds_slot i k id p r m' lt e h =
      perform-Rely n m.bank (supply_of n transactions m) (GoalOf transactions) safe.claims
        (run n (launch transactions m) ts).memory m' i (place_account id k) r safe.money safe.pool
        lt
        (next-Allowed n m.bank (supply_of n transactions m) (GoalOf transactions)
          (run n (launch transactions m) ts) safe i (place_account id k) p lt e)
        h

  -- The semaphores settle. When all the threads have ended, in whatever order they ran from a ready
  -- memory, `full_slots` counts the slots in use, `empty_slots` the others, and `pool_lock` is free.
  pub semaphores-settle :
      (results : ℕ → Transaction)
      → ((i : ℕ) → i < n → (run n (launch transactions m) ts).worker i ≡ ret (results i))
      → ((run n (launch transactions m) ts).memory.pool.full_slots
          ≡ used (run n (launch transactions m) ts).memory.pool.slots)
        × ((run n (launch transactions m) ts).memory.pool.empty_slots
              + used (run n (launch transactions m) ts).memory.pool.slots
            ≡ buffer_pool_size)
        × ((run n (launch transactions m) ts).memory.pool.pool_lock ≡ false)
  semaphores-settle results ended = (
    omega (
      arith,
      safe.pool.fulls,
      zero_of (λ c. c.owed) (λ c f. f.none_owed),
      zero_of (λ c. c.due) (λ c f. f.none_due),
    ),
    omega (arith, safe.pool.empties, zero_of (λ c. c.credit) (λ c f. f.no_credit)),
    ground (arith, safe.pool.mutex, zero_of (λ c. c.mutex) (λ c f. f.no_mutex)),
  )
    where
      free : (i : ℕ) → i < n → IsFree (safe.claims i)
      free i lt =
          (subst
            (λ p.
              Keeps m.bank (supply_of n transactions m) (safe.claims i) p (GoalOf transactions i))
            (ended i lt) (safe.keeps i lt)).free

      zero_of : (w : Claim → ℕ) → ((c : Claim) → IsFree c → w c ≡ 0) → total w n safe.claims ≡ 0
      zero_of w h = total-eq-zero w n safe.claims (λ i lt. h (safe.claims i) (free i lt))
