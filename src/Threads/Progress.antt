-- ===== src/Threads/Progress.antt =====
-- No deadlock on the locks of the accounts, on the mutex of the pool, or on `full_slots`: when every
-- thread waits, they wait for the clock or for a slot in a full pool.
use cmsc125_lab3_sabandal_sa.Common.{
  ℕ, zero, suc, ◌+◌, ◌≤◌, ◌<◌, ◌≡◌, refl, subst, true, none, List, [], ◌∷◌, ◌<ℤ◌, pos_part, arith,
  length, inl, inr, ◌⊎◌, total, total-pos, total-ge, total-eq-zero, dec_lt,
}
use cmsc125_lab3_sabandal_sa.Bank.{Account, Bank}
use cmsc125_lab3_sabandal_sa.BufferPool.{buffer_pool_size}
use cmsc125_lab3_sabandal_sa.LockMgr.{slot_id}
use cmsc125_lab3_sabandal_sa.Machine.{
  Shared, Action, wrlock, rdlock, lock_pool, wait_empty, wait_full, await_tick, Reply, perform,
  Prog, ret, call,
}
use cmsc125_lab3_sabandal_sa.Transaction.{Transaction}
use cmsc125_lab3_sabandal_sa.Discipline.{Claim, IsFree, holds, Keeps, key}
use cmsc125_lab3_sabandal_sa.Threads.{System, Turn, run, launch}
use cmsc125_lab3_sabandal_sa.Threads.Frame.{length-of_ids, ids_of, run-SameAccountSet}
use cmsc125_lab3_sabandal_sa.Threads.Launch.{IsReady, supply_of, GoalOf, reachable-Safe}
use cmsc125_lab3_sabandal_sa.Threads.Invariant.{used}
use cmsc125_lab3_sabandal_sa.Threads.Safety.{Safe}
use cmsc125_lab3_sabandal_sa.Threads.Exclusion.{next-Allowed}
use cmsc125_lab3_sabandal_sa.Threads.Waiting.{
  LockWait, Waits, perform-Waits, Waits-no_mutex, Waits-none_owed, Waits-above,
}

-- What a thread may wait for when none of them can go on.
abbrev pub WaitsForRoom : Action → Shared → Type 0
WaitsForRoom wait_empty m = used m.pool.slots ≡ buffer_pool_size
WaitsForRoom (await_tick t) m = m.global_tick <ℤ t
WaitsForRoom _ m = ⊥

ids_total : List Account → ℕ
ids_total [] = 0
ids_total (a ∷ rest) = pos_part a.account_id + ids_total rest

module _ (bank : Bank) where
  id_le :
      (accounts : List Account) (k : ℕ)
      → pos_part (slot_id (record bank { accounts = accounts }) k) ≤ ids_total accounts
  unfolding ids_total
  id_le [] k = omega arith
  id_le (a ∷ rest) zero = omega arith
  id_le (a ∷ rest) (suc k) = omega (arith, id_le rest k)

  key_le : (k : ℕ) → key bank k ≤ ids_total bank.accounts
  key_le k = id_le bank.accounts k

module _ (n : ℕ) (bank : Bank) (supply : ℕ) (Goal : ℕ → Transaction → Claim → Type 0)
    (ends_free : (i : ℕ) (tx : Transaction) (c : Claim) → Goal i tx c → IsFree c) (s : System)
    (safe : Safe n bank supply Goal s) (same : length s.memory.bank.accounts ≡ length bank.accounts)
    (stuck : (i : ℕ) (a : Action) (k : Reply a → Prog Transaction)
      → i < n
      → s.worker i ≡ call a k
      → perform a s.memory ≡ none) where
  -- A thread has ended, or waits.
  standing :
      (i : ℕ)
      → i < n
      → IsFree (safe.claims i) ⊎ ((a : Action) × Waits bank a (safe.claims i) s.memory)
  standing i lt = by_code (s.worker i) refl
    where
      by_code :
          (p : Prog Transaction)
          → s.worker i ≡ p
          → IsFree (safe.claims i) ⊎ ((a : Action) × Waits bank a (safe.claims i) s.memory)
      by_code (ret tx) e = inl (
          ends_free i tx (safe.claims i)
            (subst (λ p. Keeps bank supply (safe.claims i) p (Goal i)) e (safe.keeps i lt)))
      by_code (call a k) e = inr (
        a,
        perform-Waits bank s.memory same a (safe.claims i)
            (next-Allowed n bank supply Goal s safe i a k lt e) (stuck i a k lt e),
      )

  no_mutex : (i : ℕ) → i < n → (safe.claims i).mutex ≡ 0
  no_mutex i lt = elim (standing i lt) [
    | inl free ↦ free.no_mutex
    | inr (a, w) ↦ Waits-no_mutex bank s.memory a (safe.claims i) w
  ]

  none_owed : (i : ℕ) → i < n → (safe.claims i).owed ≡ 0
  none_owed i lt = elim (standing i lt) [
    | inl free ↦ free.none_owed
    | inr (a, w) ↦ Waits-none_owed bank s.memory a (safe.claims i) w
  ]

  pool-unlocked : s.memory.pool.pool_lock ≡ true → ⊥
  pool-unlocked e =
      ground (arith, safe.pool.mutex, total-eq-zero (λ (c : Claim). c.mutex) n safe.claims no_mutex)

  no_full_wait : (i : ℕ) → i < n → 0 < (safe.claims i).due → s.memory.pool.full_slots ≡ 0 → ⊥
  no_full_wait i lt due e = omega (
    arith,
    safe.pool.fulls,
    total-eq-zero (λ (c : Claim). c.owed) n safe.claims none_owed,
    total-ge (λ (c : Claim). c.due) n safe.claims i lt,
  )

  -- Some thread holds a lock that is taken.
  holder :
      (c : Claim) (k : ℕ)
      → LockWait bank c k s.memory
      → (j : ℕ) × (j < n) × (0 < holds (safe.claims j) k)
  holder c k w = elim (dec_lt 0 (total (λ (c : Claim). c.writes k) n safe.claims)) [
    | yes some_writer ↦
        let (j, lt, h) = total-pos (λ (c : Claim). c.writes k) n safe.claims some_writer in
        (j, lt, omega arith)
    | no no_writer ↦
        let (j, lt, h) =
          total-pos (λ (c : Claim). c.reads k) n safe.claims
            (omega (
              arith,
              w.taken,
              safe.locks.writers k w.lock w.entry,
              safe.locks.readers k w.lock w.entry,
            )) in
        (j, lt, omega arith)
  ]

  -- The keys along a chain of threads that wait for each other's locks increase, and are bounded.
  no-LockWait :
      (fuel : ℕ) (c : Claim) (k : ℕ)
      → LockWait bank c k s.memory
      → ids_total bank.accounts < fuel + key bank k
      → ⊥
  no-LockWait zero c k w enough = omega (arith, key_le bank k)
  no-LockWait (suc fuel) c k w enough =
      let (j, lt, h) = holder c k w in
      elim (standing j lt) [
        | inl free ↦ omega (arith, free.no_locks k)
        | inr (a, waits) ↦
            let (k', w', up) = Waits-above bank s.memory a (safe.claims j) k waits h in
            no-LockWait fuel (safe.claims j) k' w' (omega arith)
      ]

  no-LockWait_ever : (c : Claim) (k : ℕ) → LockWait bank c k s.memory → ⊥
  no-LockWait_ever c k w = no-LockWait (suc (ids_total bank.accounts)) c k w (omega arith)

  no_credit : (i : ℕ) → i < n → (safe.claims i).credit ≡ 0
  no_credit i lt = elim (standing i lt) [ inl free ↦ free.no_credit | inr (a, w) ↦ credit_of a w ]
    where
      credit_of : (a : Action) → Waits bank a (safe.claims i) s.memory → (safe.claims i).credit ≡ 0
      credit_of (wrlock k) w = absurd (no-LockWait_ever (safe.claims i) k w)
      credit_of (rdlock k) w = absurd (no-LockWait_ever (safe.claims i) k w)
      credit_of lock_pool w = absurd (pool-unlocked w.3)
      credit_of wait_empty w = w.0.no_credit
      credit_of wait_full w = absurd (no_full_wait i lt w.3 w.4)
      credit_of (await_tick t) w = w.0.no_credit
      credit_of a w = absurd w

  stuck-WaitsForRoom :
      (i : ℕ) (a : Action) (k : Reply a → Prog Transaction)
      → i < n
      → s.worker i ≡ call a k
      → WaitsForRoom a s.memory
  stuck-WaitsForRoom i a k lt e = reason a (
      perform-Waits bank s.memory same a (safe.claims i)
        (next-Allowed n bank supply Goal s safe i a k lt e) (stuck i a k lt e))
    where
      reason : (a : Action) → Waits bank a (safe.claims i) s.memory → WaitsForRoom a s.memory
      reason (wrlock k) w = no-LockWait_ever (safe.claims i) k w
      reason (rdlock k) w = no-LockWait_ever (safe.claims i) k w
      reason lock_pool w = pool-unlocked w.3
      reason wait_empty w = omega (
        arith,
        w.1,
        safe.pool.empties,
        total-eq-zero (λ (c : Claim). c.credit) n safe.claims no_credit,
      )
      reason wait_full w = no_full_wait i lt w.3 w.4
      reason (await_tick t) w = w.1
      reason a w = absurd w

launched-ids :
    (n : ℕ) (transactions : ℕ → Transaction) (m : Shared) (ts : List Turn)
    → ids_of (run n (launch transactions m) ts).memory.bank.accounts ≡ ids_of m.bank.accounts
unfolding launch
launched-ids n transactions m ts = (run-SameAccountSet n (launch transactions m) ts).ids

-- No deadlock but for room in the pool. In every state that a schedule of the `n` workers reaches
-- from a ready memory: if every worker that has an access left waits with it, then each such
-- worker waits in `sem_wait(&pool->empty_slots)` while all five slots of the pool are in use, or in
-- `wait_until_tick` for a tick that the clock has not reached. None waits for an account's lock,
-- for `pool_lock` or for `full_slots`.
pub deadlock_free-WaitsForRoom :
    (n : ℕ) (transactions : ℕ → Transaction) (m : Shared) (ready : IsReady n transactions m)
    (ts : List Turn)
    → ((i : ℕ) (a : Action) (k : Reply a → Prog Transaction)
        → i < n
        → (run n (launch transactions m) ts).worker i ≡ call a k
        → perform a (run n (launch transactions m) ts).memory ≡ none)
    → (i : ℕ) (a : Action) (k : Reply a → Prog Transaction) → i < n
    → (run n (launch transactions m) ts).worker i ≡ call a k
    → WaitsForRoom a (run n (launch transactions m) ts).memory
deadlock_free-WaitsForRoom n transactions m ready ts stuck i a k lt e =
    let s = run n (launch transactions m) ts in
    stuck-WaitsForRoom n m.bank (supply_of n transactions m) (GoalOf transactions)
      (λ j tx c goal. goal.free) s (reachable-Safe n transactions m ready ts)
      (length-of_ids s.memory.bank.accounts m.bank.accounts (launched-ids n transactions m ts))
      stuck i a k lt e
