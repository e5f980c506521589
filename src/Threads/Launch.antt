-- ===== src/Threads/Launch.antt =====
-- The system that `main` of src/main.c starts, once the bank is loaded and the buffer pool is set up.
use cmsc125_lab3_sabandal_sa.Common.{
  ℕ, ◌+◌, ◌<◌, ◌≤◌, ◌≡◌, refl, sym, ap, ◌∙◌, none, some, List, pos, neg_part, arith, get_elem?,
  take, total, total-eq-zero, total-same,
}
use cmsc125_lab3_sabandal_sa.CInt.{int_half}
use cmsc125_lab3_sabandal_sa.RwLock.{RwLock, open_lock}
use cmsc125_lab3_sabandal_sa.Bank.{Account}
use cmsc125_lab3_sabandal_sa.Bank.Lookup.{IsValid}
use cmsc125_lab3_sabandal_sa.BufferPool.{init_buffer_slots, init_buffer_pool, zeroed_pool}
use cmsc125_lab3_sabandal_sa.Machine.{Shared}
use cmsc125_lab3_sabandal_sa.Transaction.{Operation, Transaction}
use cmsc125_lab3_sabandal_sa.Transaction.Flow.{all_paid_in}
use cmsc125_lab3_sabandal_sa.Discipline.{Claim}
use cmsc125_lab3_sabandal_sa.Discipline.Workers.{Ends, execute_transaction-Keeps}
use cmsc125_lab3_sabandal_sa.Threads.{Turn, run, launch}
use cmsc125_lab3_sabandal_sa.Threads.Invariant.{
  lock_at, lock_of-some, balance_of-some, money_in, LocksOk, MoneyOk, PoolOk,
}
use cmsc125_lab3_sabandal_sa.Threads.Safety.{Safe, run-Safe}

-- The operations that the loop of `execute_transaction` goes through.
abbrev pub ops_of : Transaction → List Operation
ops_of tx = take tx.num_ops tx.ops

-- The money there is, in the accounts and in the deposits to come.
abbrev pub supply_of : ℕ → (ℕ → Transaction) → Shared → ℕ
supply_of n transactions m =
    money_in m.bank.accounts + total (λ tx. all_paid_in (ops_of tx)) n transactions

-- The memory before the threads start. The whole supply fits into an `int`.
pub record IsReady (n : ℕ) (transactions : ℕ → Transaction) (m : Shared) : Type 0 where
  pub valid : IsValid m.bank
  pub nonneg :
      (k : ℕ) (a : Account) → get_elem? m.bank.accounts k ≡ some a → neg_part a.balance_centavos ≡ 0
  pub blank :
      (k : ℕ) (a : Account)
      → m.bank.num_accounts ≤ k
      → get_elem? m.bank.accounts k ≡ some a
      → a.balance_centavos ≡ pos 0
  pub unlocked : (k : ℕ) (a : Account) → get_elem? m.bank.accounts k ≡ some a → a.lock ≡ open_lock
  pub empty_pool : m.pool ≡ init_buffer_pool zeroed_pool
  pub small : supply_of n transactions m < int_half

-- What a thread owns at its start: the right to make its deposits.
abbrev pub first_claim : Transaction → Claim
first_claim tx = record {
  writes = λ k. 0;
  reads = λ k. 0;
  known = λ k. none;
  purse = all_paid_in (ops_of tx);
  mutex = 0;
  credit = 0;
  owed = 0;
  due = 0;
}

abbrev pub GoalOf : (ℕ → Transaction) → ℕ → Transaction → Claim → Type 0
GoalOf transactions i tx c =
    Ends (transactions i).num_ops (transactions i).ops (first_claim (transactions i))
      (ops_of (transactions i)) tx c

module _ (n : ℕ) (transactions : ℕ → Transaction) (m : Shared)
    (ready : IsReady n transactions m) where
  claims : ℕ → Claim
  claims i = first_claim (transactions i)

  lock-open : (k : ℕ) (l : RwLock) → lock_at m.bank.accounts k ≡ some l → l ≡ open_lock
  lock-open k l h =
      let (a, e, same) = lock_of-some (get_elem? m.bank.accounts k) l h in
      sym same ∙ ready.unlocked k a e

  launch-LocksOk : LocksOk n claims m.bank.accounts
  unfolding claims
  launch-LocksOk = record {
    writers =
        λ k l h. rw (lock-open k l h) (total-eq-zero (λ c. c.writes k) n claims (λ i lt. refl));
    readers =
        λ k l h. rw (lock-open k l h) (total-eq-zero (λ c. c.reads k) n claims (λ i lt. refl));
    apart = λ k l h w. ground (arith, lock-open k l h);
    once = λ i k lt. omega arith;
  }

  launch-MoneyOk : MoneyOk n (supply_of n transactions m) claims m.bank.accounts
  unfolding claims
  launch-MoneyOk = record {
    fresh = λ i k u lt h. cc;
    held = λ i k u lt h. cc;
    nonneg = λ k b h.
        let (a, e, same) = balance_of-some (get_elem? m.bank.accounts k) b h in
        ap neg_part (sym same) ∙ ready.nonneg k a e;
    conserved = ap (money_in m.bank.accounts +◌) (
        total-same (λ c. c.purse) (λ tx. all_paid_in (ops_of tx)) n claims transactions
          (λ i lt. refl));
  }

  launch-PoolOk : PoolOk n claims m
  unfolding claims init_buffer_pool init_buffer_slots
  launch-PoolOk = record {
    size = rw ready.empty_pool refl;
    mutex = rw ready.empty_pool (total-eq-zero (λ c. c.mutex) n claims (λ i lt. refl));
    empties = rw (ready.empty_pool, total-eq-zero (λ c. c.credit) n claims (λ i lt. refl)) refl;
    fulls =
        rw
          (
            ready.empty_pool,
            total-eq-zero (λ c. c.owed) n claims (λ i lt. refl),
            total-eq-zero (λ c. c.due) n claims (λ i lt. refl),
          )
          refl;
    usage = rw ready.empty_pool refl;
  }

  pub launch-Safe :
      Safe n m.bank (supply_of n transactions m) (GoalOf transactions) (launch transactions m)
  unfolding launch claims
  launch-Safe = record {
    claims = claims;
    locks = launch-LocksOk;
    money = launch-MoneyOk;
    pool = launch-PoolOk;
    unused = λ k beyond. refl;
    keeps = λ i lt.
        execute_transaction-Keeps m.bank ready.valid (supply_of n transactions m) ready.small
          (claims i) (transactions i)
          (record {
            no_locks = λ k. refl;
            no_mutex = refl;
            no_credit = refl;
            none_owed = refl;
            none_due = refl;
          })
          (omega arith);
  }

  -- In every state that a schedule reaches.
  pub reachable-Safe :
      (ts : List Turn)
      → Safe n m.bank
          (supply_of n transactions m)
          (GoalOf transactions)
          (run n (launch transactions m) ts)
  reachable-Safe ts =
      run-Safe n m.bank (supply_of n transactions m) (GoalOf transactions) (launch transactions m)
        ts launch-Safe
