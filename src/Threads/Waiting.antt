-- ===== src/Threads/Waiting.antt =====
-- Why an access can wait, for a thread that keeps to the logic.
use cmsc125_lab3_sabandal_sa.Common.{
  ℕ, ◌+◌, ◌<◌, ◌≡◌, true, none, some, ◌<ℤ◌, arith, length, get_elem?, get_elem?-some,
}
use cmsc125_lab3_sabandal_sa.RwLock.{RwLock}
use cmsc125_lab3_sabandal_sa.Bank.{Account, Bank}
use cmsc125_lab3_sabandal_sa.Machine.{
  Shared, Action, wrlock, rdlock, unlock, load_balance, store_balance, lock_pool, try_empty,
  wait_empty, wait_full, await_tick, perform,
}
use cmsc125_lab3_sabandal_sa.Discipline.{Claim, IsFree, holds, MayLock, Allowed, key}
use cmsc125_lab3_sabandal_sa.Threads.Invariant.{bit, lock_at}

-- A thread waits for the lock of slot `k`, which another holds.
pub record LockWait (bank : Bank) (c : Claim) (k : ℕ) (m : Shared) : Type 0 where
  pub may : MayLock bank c k
  pub lock : RwLock
  pub entry : lock_at m.bank.accounts k ≡ some lock
  pub taken : 0 < bit lock.writer + lock.readers

abbrev pub NoLocks : Claim → Type 0
NoLocks c = (k : ℕ) → holds c k ≡ 0

-- What is known of a thread whose next access waits.
abbrev pub Waits : Bank → Action → Claim → Shared → Type 0
Waits bank (wrlock k) c m = LockWait bank c k m
Waits bank (rdlock k) c m = LockWait bank c k m
Waits bank lock_pool c m = NoLocks c × (c.mutex ≡ 0) × (c.owed ≡ 0) × (m.pool.pool_lock ≡ true)
Waits bank wait_empty c m = IsFree c × (m.pool.empty_slots ≡ 0)
Waits bank wait_full c m =
    NoLocks c × (c.mutex ≡ 0) × (c.owed ≡ 0) × (0 < c.due) × (m.pool.full_slots ≡ 0)
Waits bank (await_tick t) c m = IsFree c × (m.global_tick <ℤ t)
Waits bank _ c m = ⊥

module _ (bank : Bank) (m : Shared) (same : length m.bank.accounts ≡ length bank.accounts) where
  slot : (k : ℕ) → k < length bank.accounts → (a : Account) × (get_elem? m.bank.accounts k ≡ some a)
  slot k lt = get_elem?-some m.bank.accounts k (rw same lt)

  pub perform-Waits :
      (a : Action) (c : Claim) → Allowed bank a c → perform a m ≡ none → Waits bank a c m
  unfolding perform
  perform-Waits (wrlock k) c may h =
      let (a, e) = slot k may.in_range.1 in
      record { may = may; lock = a.lock; entry = ground arith; taken = ground arith }
  perform-Waits (rdlock k) c may h =
      let (a, e) = slot k may.in_range.1 in
      record { may = may; lock = a.lock; entry = ground arith; taken = ground arith }
  perform-Waits (unlock k) c may h = let (a, e) = slot k may.0.1 in ground arith
  perform-Waits (load_balance k) c may h = let (a, e) = slot k may.0.1 in ground arith
  perform-Waits (store_balance k v) c may h = let (a, e) = slot k may.0.1 in ground arith
  perform-Waits lock_pool c may h = (may.0, may.1, may.2, ground arith)
  perform-Waits wait_empty c may h = (may, ground arith)
  perform-Waits wait_full c may h = (may.0, may.1, may.2, may.3, ground arith)
  perform-Waits (await_tick t) c may h = (may, ground arith)
  perform-Waits try_empty c may h = ground arith
  perform-Waits a c may h = cc

module _ (bank : Bank) (m : Shared) where
  -- A thread that waits has not the mutex, and owes `full_slots` nothing.
  pub Waits-no_mutex : (a : Action) (c : Claim) → Waits bank a c m → c.mutex ≡ 0
  Waits-no_mutex (wrlock k) c w = w.may.outside
  Waits-no_mutex (rdlock k) c w = w.may.outside
  Waits-no_mutex lock_pool c w = w.1
  Waits-no_mutex wait_empty c w = w.0.no_mutex
  Waits-no_mutex wait_full c w = w.1
  Waits-no_mutex (await_tick t) c w = w.0.no_mutex
  Waits-no_mutex a c w = absurd w

  pub Waits-none_owed : (a : Action) (c : Claim) → Waits bank a c m → c.owed ≡ 0
  Waits-none_owed (wrlock k) c w = w.may.settled
  Waits-none_owed (rdlock k) c w = w.may.settled
  Waits-none_owed lock_pool c w = w.2
  Waits-none_owed wait_empty c w = w.0.none_owed
  Waits-none_owed wait_full c w = w.2
  Waits-none_owed (await_tick t) c w = w.0.none_owed
  Waits-none_owed a c w = absurd w

  -- A thread that waits and holds the lock of slot `k` waits for a lock with a greater key.
  pub Waits-above :
      (a : Action) (c : Claim) (k : ℕ)
      → Waits bank a c m
      → 0 < holds c k
      → (k' : ℕ) × LockWait bank c k' m × (key bank k < key bank k')
  Waits-above (wrlock k') c k w h = (k', w, w.may.ascending k h)
  Waits-above (rdlock k') c k w h = (k', w, w.may.ascending k h)
  Waits-above lock_pool c k w h = absurd (omega (arith, w.0 k))
  Waits-above wait_empty c k w h = absurd (omega (arith, w.0.no_locks k))
  Waits-above wait_full c k w h = absurd (omega (arith, w.0 k))
  Waits-above (await_tick t) c k w h = absurd (omega (arith, w.0.no_locks k))
  Waits-above a c k w h = absurd w
