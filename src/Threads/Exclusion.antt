-- ===== src/Threads/Exclusion.antt =====
-- Threads beside one another: who may touch a balance, and who may touch the buffer pool.
use cmsc125_lab3_sabandal_sa.Common.{
  ℕ, ◌≤◌, ◌<◌, ◌≡◌, ap, subst, Bool, true, false, Option, none, some, List, ℤ, pos, arith,
  get_elem?, total, total-ge_two, dec_lt, ℕ_discrete,
}
use cmsc125_lab3_sabandal_sa.Bank.{Bank}
use cmsc125_lab3_sabandal_sa.Machine.{
  Shared, Action, load_balance, store_balance, pin_loaded, place_account, unpin_account, look_up,
  count_blocked, unlock_pool, Reply, Prog, call,
}
use cmsc125_lab3_sabandal_sa.Transaction.{Transaction}
use cmsc125_lab3_sabandal_sa.Discipline.{Claim, Allowed, Keeps, holds}
use cmsc125_lab3_sabandal_sa.Threads.{System, Turn, run, launch}
use cmsc125_lab3_sabandal_sa.Threads.Invariant.{lock_of, balance_of-some}
use cmsc125_lab3_sabandal_sa.Threads.Locks.{exclusive}
use cmsc125_lab3_sabandal_sa.Threads.Safety.{Safe}
use cmsc125_lab3_sabandal_sa.Threads.Launch.{IsReady, supply_of, GoalOf, reachable-Safe}

-- The balance that an access reads or writes.
abbrev pub balance_slot : Action → Option ℕ
balance_slot (load_balance i) = some i
balance_slot (store_balance i v) = some i
balance_slot _ = none

-- The accesses to the slots and the counters of the pool, and the end of such a section.
abbrev pub in_pool_section : Action → Bool
in_pool_section (pin_loaded id) = true
in_pool_section (place_account id i) = true
in_pool_section (unpin_account id) = true
in_pool_section (look_up id) = true
in_pool_section count_blocked = true
in_pool_section unlock_pool = true
in_pool_section _ = false

-- Two summands of a sum that is at most one are not both positive.
pub one_holder :
    {A : Type 0} (w : A → ℕ) (n : ℕ) (f : ℕ → A) (i j : ℕ)
    → total w n f ≤ 1
    → i < n
    → j < n
    → 0 < w (f i)
    → 0 < w (f j)
    → i ≡ j
one_holder w n f i j most lt_i lt_j p q = elim (ℕ_discrete i j) [
  | yes same ↦ same
  | no differ ↦ elim (dec_lt i j) [
    | yes below ↦ absurd (omega (arith, total-ge_two w n f i j below lt_j))
    | no above ↦ absurd (omega (arith, total-ge_two w n f j i (omega arith) lt_i))
  ]
]

module _ (n : ℕ) (bank : Bank) (supply : ℕ) (Goal : ℕ → Transaction → Claim → Type 0) (s : System)
    (safe : Safe n bank supply Goal s) where
  pub next-Allowed :
      (i : ℕ) (a : Action) (k : Reply a → Prog Transaction)
      → i < n
      → s.worker i ≡ call a k
      → Allowed bank a (safe.claims i)
  next-Allowed i a k lt e =
      (subst (λ p. Keeps bank supply (safe.claims i) p (Goal i)) e (safe.keeps i lt)).0

  holds-of_slot :
      (a : Action) (c : Claim) (k : ℕ) → balance_slot a ≡ some k → Allowed bank a c → 0 < holds c k
  holds-of_slot (load_balance i) c k e may = ground arith
  holds-of_slot (store_balance i v) c k e may = ground (arith, may.1.exclusive)
  holds-of_slot a c k e may = cc

  mutex-of_section :
      (a : Action) (c : Claim) → in_pool_section a ≡ true → Allowed bank a c → 0 < c.mutex
  mutex-of_section (pin_loaded id) c e may = omega (arith, may)
  mutex-of_section (place_account id i) c e may = omega (arith, may.0)
  mutex-of_section (unpin_account id) c e may = omega (arith, may)
  mutex-of_section (look_up id) c e may = omega (arith, may)
  mutex-of_section count_blocked c e may = omega (arith, may)
  mutex-of_section unlock_pool c e may = omega (arith, may)
  mutex-of_section a c e may = cc

  store-alone :
      (i j k : ℕ) (v : ℤ) (a : Action) (p : Unit → Prog Transaction)
      (q : Reply a → Prog Transaction)
      → i < n
      → j < n
      → s.worker i ≡ call (store_balance k v) p
      → s.worker j ≡ call a q
      → balance_slot a ≡ some k
      → i ≡ j
  store-alone i j k v a p q lt_i lt_j e f slot =
      let may = next-Allowed i (store_balance k v) p lt_i e in
      let (account, entry, same) =
        balance_of-some (get_elem? s.memory.bank.accounts k) (pos may.1.old)
          (safe.money.fresh i k may.1.old lt_i may.1.current) in
      exclusive n safe.claims s.memory.bank.accounts safe.locks k account.lock i j
        (ap lock_of entry) lt_i lt_j may.1.exclusive
        (holds-of_slot a (safe.claims j) k slot (next-Allowed j a q lt_j f))

  section-alone :
      (i j : ℕ) (a b : Action) (p : Reply a → Prog Transaction) (q : Reply b → Prog Transaction)
      → i < n
      → j < n
      → s.worker i ≡ call a p
      → s.worker j ≡ call b q
      → in_pool_section a ≡ true
      → in_pool_section b ≡ true
      → i ≡ j
  section-alone i j a b p q lt_i lt_j e f in_a in_b =
      one_holder (λ (c : Claim). c.mutex) n safe.claims i j (ground (arith, safe.pool.mutex)) lt_i
        lt_j (mutex-of_section a (safe.claims i) in_a (next-Allowed i a p lt_i e))
        (mutex-of_section b (safe.claims j) in_b (next-Allowed j b q lt_j f))

module _ (n : ℕ) (transactions : ℕ → Transaction) (m : Shared) (ready : IsReady n transactions m)
    (ts : List Turn) where
  -- No data race on a balance. In every state that a schedule of the `n` workers reaches from a
  -- ready memory: if the next access of thread `i` stores a balance, and the next access of thread
  -- `j` loads or stores the same balance, then `i` and `j` are the same thread.
  pub no_balance_race :
      (i j k : ℕ) (v : ℤ) (a : Action) (p : Unit → Prog Transaction)
      (q : Reply a → Prog Transaction)
      → i < n
      → j < n
      → (run n (launch transactions m) ts).worker i ≡ call (store_balance k v) p
      → (run n (launch transactions m) ts).worker j ≡ call a q
      → balance_slot a ≡ some k
      → i ≡ j
  no_balance_race i j k v a p q lt_i lt_j e f slot =
      store-alone n m.bank (supply_of n transactions m) (GoalOf transactions)
        (run n (launch transactions m) ts) (reachable-Safe n transactions m ready ts) i j k v a p q
        lt_i lt_j e f slot

  -- The critical sections of the buffer pool exclude one another. In every state that a schedule
  -- of the `n` workers reaches from a ready memory: if the next accesses of the threads `i` and
  -- `j` both belong to a section under `pool_lock`, then `i` and `j` are the same thread.
  pub pool_sections-exclusive :
      (i j : ℕ) (a b : Action) (p : Reply a → Prog Transaction) (q : Reply b → Prog Transaction)
      → i < n
      → j < n
      → (run n (launch transactions m) ts).worker i ≡ call a p
      → (run n (launch transactions m) ts).worker j ≡ call b q
      → in_pool_section a ≡ true
      → in_pool_section b ≡ true
      → i ≡ j
  pool_sections-exclusive i j a b p q lt_i lt_j e f in_a in_b =
      section-alone n m.bank (supply_of n transactions m) (GoalOf transactions)
        (run n (launch transactions m) ts) (reachable-Safe n transactions m ready ts) i j a b p q
        lt_i lt_j e f in_a in_b
