-- ===== src/Discipline.antt =====
-- A program logic for the code of one thread beside others. A `Claim` is what the thread owns: the
-- account locks it holds, the balances it has read under them, the pool's mutex, the semaphore
-- units that it has taken or owes, and the money it may still put into accounts. Each access has a
-- condition, `Allowed`, changes the claim by `after`, and may count on `Rely` for its reply.
pub mod Locks
pub mod Accounts
pub mod Transfer
pub mod Pool
pub mod Loading
pub mod Operations
pub mod Workers
use cmsc125_lab3_sabandal_sa.Common.{
  ℕ, ◌+◌, ◌-◌, ◌≤◌, ◌<◌, ◌≡◌, ◌≢◌, true, false, Option, none, some, ℤ, pos_part, neg_part, length,
  update,
}
use cmsc125_lab3_sabandal_sa.Bank.{Bank}
use cmsc125_lab3_sabandal_sa.BufferPool.{Placed, already, inserted, no_slot}
use cmsc125_lab3_sabandal_sa.LockMgr.{slot_id}
use cmsc125_lab3_sabandal_sa.Machine.{
  Action, wrlock, rdlock, unlock, load_balance, store_balance, lock_pool, unlock_pool,
  place_account, unpin_account, try_empty, wait_empty, post_empty, wait_full, post_full, yield_cpu,
  await_tick, read_tick, print_balance, Reply, Prog, ret, call, ◌>>=◌,
}

-- `credit` counts units of `empty_slots` in hand, `owed` the inserted accounts not yet posted to
-- `full_slots`, and `due` the freed slots not yet taken from it.
pub record Claim : Type 0 where
  pub writes : ℕ → ℕ
  pub reads : ℕ → ℕ
  pub known : ℕ → Option ℕ
  pub purse : ℕ
  pub mutex : ℕ
  pub credit : ℕ
  pub owed : ℕ
  pub due : ℕ

abbrev pub holds : Claim → ℕ → ℕ
holds c i = c.writes i + c.reads i

-- The thread holds no account lock, and not the mutex, and owes the semaphores nothing.
pub record IsFree (c : Claim) : Type 0 where
  pub no_locks : (i : ℕ) → holds c i ≡ 0
  pub no_mutex : c.mutex ≡ 0
  pub no_credit : c.credit ≡ 0
  pub none_owed : c.owed ≡ 0
  pub none_due : c.due ≡ 0

abbrev pub value_of : Option ℕ → ℕ
value_of none = 0
value_of (some u) = u

-- A slot of the array that holds an account.
abbrev pub IsUsed : Bank → ℕ → Type 0
IsUsed bank i = (i < bank.num_accounts) × (i < length bank.accounts)

-- Locks are taken in this order. Identifiers are not negative.
abbrev pub key : Bank → ℕ → ℕ
key bank i = pos_part (slot_id bank i)

pub record MayLock (bank : Bank) (c : Claim) (i : ℕ) : Type 0 where
  pub in_range : IsUsed bank i
  pub ascending : (k : ℕ) → 0 < holds c k → key bank k < key bank i
  pub outside : c.mutex ≡ 0
  pub settled : c.owed ≡ 0

-- A store is covered: what the balance gains comes out of the purse, and what it loses goes there.
pub record MayStore (c : Claim) (i : ℕ) (v : ℤ) : Type 0 where
  pub exclusive : 0 < c.writes i
  pub old : ℕ
  pub current : c.known i ≡ some old
  pub nonneg : neg_part v ≡ 0
  pub covered : pos_part v ≤ old + c.purse

module _ (bank : Bank) where
  abbrev pub Allowed : Action → Claim → Type 0
  Allowed (wrlock i) c = MayLock bank c i
  Allowed (rdlock i) c = MayLock bank c i
  Allowed (unlock i) c = IsUsed bank i × (0 < holds c i)
  Allowed (load_balance i) c = IsUsed bank i × (0 < holds c i)
  Allowed (store_balance i v) c = IsUsed bank i × MayStore c i v
  Allowed lock_pool c = ((i : ℕ) → holds c i ≡ 0) × (c.mutex ≡ 0) × (c.owed ≡ 0)
  Allowed (place_account id i) c = (c.mutex ≡ 1) × (0 < c.credit)
  Allowed wait_empty c = IsFree c
  Allowed post_empty c = 0 < c.credit
  Allowed wait_full c = ((i : ℕ) → holds c i ≡ 0) × (c.mutex ≡ 0) × (c.owed ≡ 0) × (0 < c.due)
  Allowed post_full c = 0 < c.owed
  Allowed try_empty c = Unit
  Allowed yield_cpu c = Unit
  Allowed (await_tick t) c = IsFree c
  Allowed read_tick c = Unit
  Allowed (print_balance line) c = Unit
  Allowed _ c = c.mutex ≡ 1

abbrev pub after_placing : Placed → Claim → Claim
after_placing already c = c
after_placing (inserted full) c = record c { credit = c.credit - 1; owed = c.owed + 1 }
after_placing no_slot c = c

abbrev pub after : (a : Action) → Reply a → Claim → Claim
after (wrlock i) r c = record c { writes = update c.writes i 1 }
after (rdlock i) r c = record c { reads = update c.reads i 1 }
after (unlock i) r c = record c {
  writes = update c.writes i 0;
  reads = update c.reads i 0;
  known = update c.known i none;
}
after (load_balance i) r c = record c { known = update c.known i (some (pos_part r)) }
after (store_balance i v) r c = record c {
  known = update c.known i (some (pos_part v));
  purse = value_of (c.known i) + c.purse - pos_part v;
}
after lock_pool r c = record c { mutex = 1 }
after unlock_pool r c = record c { mutex = 0 }
after (place_account id i) r c = after_placing r c
after (unpin_account id) true c = record c { credit = c.credit + 1; due = c.due + 1 }
after (unpin_account id) false c = c
after try_empty true c = record c { credit = c.credit + 1 }
after try_empty false c = c
after wait_empty r c = record c { credit = c.credit + 1 }
after post_empty r c = record c { credit = c.credit - 1 }
after wait_full r c = record c { due = c.due - 1 }
after post_full r c = record c { owed = c.owed - 1 }
after _ r c = c

-- A balance is not negative, fits beside the purse into the money there is, and is the one that
-- was read before under the same lock. An account always finds a slot.
pub record SeenBalance (supply : ℕ) (c : Claim) (i : ℕ) (r : ℤ) : Type 0 where
  pub nonneg : neg_part r ≡ 0
  pub within : pos_part r + c.purse ≤ supply
  pub again : (u : ℕ) → c.known i ≡ some u → pos_part r ≡ u

abbrev pub Rely : ℕ → (a : Action) → Claim → Reply a → Type 0
Rely supply (load_balance i) c r = SeenBalance supply c i r
Rely supply (place_account id i) c r = r ≢ no_slot
Rely supply _ c r = Unit

module _ (bank : Bank) (supply : ℕ) where
  -- The code keeps to the conditions, whatever replies it gets, and ends with a result and a claim
  -- of which `Q` holds.
  abbrev pub Keeps : {A : Type 0} → Claim → Prog A → (A → Claim → Type 0) → Type 0
  Keeps c (ret x) Q = Q x c
  Keeps c (call a k) Q =
      Allowed bank a c × ((r : Reply a) → Rely supply a c r → Keeps (after a r c) (k r) Q)

  -- A sequence keeps to them if its parts do.
  pub Keeps-bind :
      {A B : Type 0} (P : A → Claim → Type 0) (Q : B → Claim → Type 0) (c : Claim) (p : Prog A)
      (f : A → Prog B)
      → Keeps c p P
      → ((x : A) (c' : Claim) → P x c' → Keeps c' (f x) Q)
      → Keeps c (p >>= f) Q
  Keeps-bind P Q c (ret x) f h g = g x c h
  Keeps-bind P Q c (call a k) f h g =
      (h.0, λ r rely. Keeps-bind P Q (after a r c) (k r) f (h.1 r rely) g)

  -- A weaker postcondition.
  pub Keeps-mono :
      {A : Type 0} (P Q : A → Claim → Type 0) (c : Claim) (p : Prog A)
      → Keeps c p P
      → ((x : A) (c' : Claim) → P x c' → Q x c')
      → Keeps c p Q
  Keeps-mono P Q c (ret x) h g = g x c h
  Keeps-mono P Q c (call a k) h g =
      (h.0, λ r rely. Keeps-mono P Q (after a r c) (k r) (h.1 r rely) g)
