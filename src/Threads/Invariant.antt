-- ===== src/Threads/Invariant.antt =====
-- What holds of the shared memory and of the claims of `n` worker threads between any two turns.
use cmsc125_lab3_sabandal_sa.Common.{
  ℕ, ◌+◌, ◌<◌, ◌≤◌, ◌≡◌, refl, Bool, true, false, Option, none, some, List, [], ◌∷◌, ℤ, pos,
  pos_part, neg_part, length, get_elem?, total,
}
use cmsc125_lab3_sabandal_sa.RwLock.{RwLock}
use cmsc125_lab3_sabandal_sa.Bank.{Account}
use cmsc125_lab3_sabandal_sa.BufferPool.{BufferSlot, buffer_pool_size}
use cmsc125_lab3_sabandal_sa.Machine.{Shared}
use cmsc125_lab3_sabandal_sa.Discipline.{Claim, holds}

abbrev pub bit : Bool → ℕ
bit true = 1
bit false = 0

abbrev pub lock_of : Option Account → Option RwLock
lock_of none = none
lock_of (some a) = some a.lock

abbrev pub balance_of : Option Account → Option ℤ
balance_of none = none
balance_of (some a) = some a.balance_centavos

abbrev pub lock_at : List Account → ℕ → Option RwLock
lock_at accounts k = lock_of (get_elem? accounts k)

abbrev pub balance_at : List Account → ℕ → Option ℤ
balance_at accounts k = balance_of (get_elem? accounts k)

-- The money in all the accounts.
abbrev pub money_in : List Account → ℕ
money_in [] = 0
money_in (a ∷ rest) = pos_part a.balance_centavos + money_in rest

-- The slots of the pool in use.
abbrev pub used : List BufferSlot → ℕ
used [] = 0
used (s ∷ rest) = bit s.in_use + used rest

-- Each lock counts exactly the threads that claim it, and never readers beside a writer.
pub record LocksOk (n : ℕ) (g : ℕ → Claim) (accounts : List Account) : Type 0 where
  pub writers :
      (k : ℕ) (l : RwLock)
      → lock_at accounts k ≡ some l
      → total (λ c. c.writes k) n g ≡ bit l.writer
  pub readers :
      (k : ℕ) (l : RwLock) → lock_at accounts k ≡ some l → total (λ c. c.reads k) n g ≡ l.readers
  pub apart : (k : ℕ) (l : RwLock) → lock_at accounts k ≡ some l → l.writer ≡ true → l.readers ≡ 0
  pub once : (i k : ℕ) → i < n → (g i).reads k ≤ 1

-- What a thread has read under a lock is still there, no balance is negative, and the accounts and
-- the purses hold the supply between them.
pub record MoneyOk (n supply : ℕ) (g : ℕ → Claim) (accounts : List Account) : Type 0 where
  pub fresh : (i k u : ℕ) → i < n → (g i).known k ≡ some u → balance_at accounts k ≡ some (pos u)
  pub held : (i k u : ℕ) → i < n → (g i).known k ≡ some u → 0 < holds (g i) k
  pub nonneg : (k : ℕ) (b : ℤ) → balance_at accounts k ≡ some b → neg_part b ≡ 0
  pub conserved : money_in accounts + total (λ c. c.purse) n g ≡ supply

-- The mutex counts its holder; every unit of `empty_slots` is in the semaphore, stands for a slot
-- in use, or is in a thread's hand; and `full_slots` lags behind the slots in use by what the
-- threads owe it and are due from it.
pub record PoolOk (n : ℕ) (g : ℕ → Claim) (m : Shared) : Type 0 where
  pub size : length m.pool.slots ≡ buffer_pool_size
  pub mutex : total (λ c. c.mutex) n g ≡ bit m.pool.pool_lock
  pub empties :
      m.pool.empty_slots + used m.pool.slots + total (λ c. c.credit) n g ≡ buffer_pool_size
  pub fulls :
      m.pool.full_slots + total (λ c. c.owed) n g ≡ used m.pool.slots + total (λ c. c.due) n g
  pub usage : m.pool.current_usage ≡ pos (used m.pool.slots)

pub lock_of-some :
    (e : Option Account) (l : RwLock)
    → lock_of e ≡ some l
    → (a : Account) × (e ≡ some a) × (a.lock ≡ l)
lock_of-some none l h = cc
lock_of-some (some a) l h = (a, refl, cc)

pub balance_of-some :
    (e : Option Account) (b : ℤ)
    → balance_of e ≡ some b
    → (a : Account) × (e ≡ some a) × (a.balance_centavos ≡ b)
balance_of-some none b h = cc
balance_of-some (some a) b h = (a, refl, cc)
