-- ===== src/Machine.antt =====
-- The shared memory of the program, the atomic accesses that its functions make to it, and a
-- function's code as the sequence of those accesses. `exec` runs a function with no other thread
-- about; `Threads` interleaves many.
pub mod Exec
use cmsc125_lab3_sabandal_sa.Common.{
  ℕ, zero, suc, ◌+◌, Bool, true, false, Option, none, some, List, ◌∷◌, ℤ, pos, ltb_ℤ, if◌then◌else◌,
  get_elem?, modify,
}
use cmsc125_lab3_sabandal_sa.CInt.{add_int}
use cmsc125_lab3_sabandal_sa.RwLock.{RwLock, write_lock, read_lock, release}
use cmsc125_lab3_sabandal_sa.Bank.{Bank}
use cmsc125_lab3_sabandal_sa.BufferPool.{
  BufferSlot, BufferPool, Placed, place, pin_slot, unpin, slots_hold,
}

-- What `printf` has written for a balance: transaction, account, balance.
pub record Printed : Type 0 where
  pub tx_id : ℤ
  pub account_id : ℤ
  pub balance : ℤ

pub record Shared : Type 0 where
  pub bank : Bank
  pub pool : BufferPool
  pub global_tick : ℤ
  pub simulation_running : Bool
  pub output : List Printed

-- One access. A slot of the bank stands for a pointer to an account.
pub data Action : Type 0 where
  wrlock rdlock unlock : (slot : ℕ) → Action
  load_balance : (slot : ℕ) → Action
  store_balance : (slot : ℕ) → ℤ → Action
  lock_pool unlock_pool : Action
  pin_loaded : (account_id : ℤ) → Action
  place_account : (account_id : ℤ) → (slot : ℕ) → Action
  unpin_account : (account_id : ℤ) → Action
  look_up : (account_id : ℤ) → Action
  count_blocked : Action
  try_empty wait_empty post_empty wait_full post_full : Action
  yield_cpu : Action
  await_tick : (target : ℤ) → Action
  read_tick : Action
  print_balance : Printed → Action

-- What an access returns.
abbrev pub Reply : Action → Type 0
Reply (load_balance i) = ℤ
Reply (pin_loaded id) = Bool
Reply (place_account id i) = Placed
Reply (unpin_account id) = Bool
Reply (look_up id) = Bool
Reply try_empty = Bool
Reply read_tick = ℤ
Reply _ = Unit {0}

-- A change of one account's lock; `none` if the call waits, or if there is no such slot.
abbrev pub with_lock : (RwLock → Option RwLock) → ℕ → Shared → Option (Unit {0} × Shared)
with_lock f i s = elim (get_elem? s.bank.accounts i) [
  | none ↦ none
  | some a ↦ elim (f a.lock) [
    | none ↦ none
    | some l ↦ some (
      tt,
      record s {
        bank = record s.bank { accounts = modify s.bank.accounts i (λ b. record b { lock = l }) };
      },
    )
  ]
]

abbrev pub store : ℕ → ℤ → Shared → Shared
store i v s = record s {
  bank = record s.bank {
    accounts = modify s.bank.accounts i (λ b. record b { balance_centavos = v });
  };
}

abbrev pub with_pool : BufferPool → Shared → Shared
with_pool p s = record s { pool = p }

abbrev pin_section : Option (List BufferSlot) → Shared → Bool × Shared
pin_section none s = (false, s)
pin_section (some slots) s = (true, with_pool (record s.pool { slots = slots }) s)

-- `none` if the access waits. A semaphore's `wait` takes one from a value above zero.
unfoldable pub perform : (a : Action) → Shared → Option (Reply a × Shared)
unfolding pin_slot place unpin slots_hold
perform (wrlock i) s = with_lock write_lock i s
perform (rdlock i) s = with_lock read_lock i s
perform (unlock i) s = with_lock (λ l. some (release l)) i s
perform (load_balance i) s = elim (get_elem? s.bank.accounts i) [
  | none ↦ none
  | some a ↦ some (a.balance_centavos, s)
]
perform (store_balance i v) s = elim (get_elem? s.bank.accounts i) [
  | none ↦ none
  | some a ↦ some (tt, store i v s)
]
perform lock_pool s =
    if s.pool.pool_lock then none else some (tt, with_pool (record s.pool { pool_lock = true }) s)
perform unlock_pool s = some (tt, with_pool (record s.pool { pool_lock = false }) s)
perform (pin_loaded id) s = some (pin_section (pin_slot s.pool.slots id) s)
perform (place_account id i) s = let (p, r) = place s.pool id i in some (r, with_pool p s)
perform (unpin_account id) s = let (p, r) = unpin s.pool id in some (r, with_pool p s)
perform (look_up id) s = some (slots_hold s.pool.slots id, s)
perform count_blocked s =
    some (tt, with_pool (record s.pool { blocked_count = add_int s.pool.blocked_count (pos 1) }) s)
perform try_empty s = elim s.pool.empty_slots [
  | zero ↦ some (false, s)
  | suc n ↦ some (true, with_pool (record s.pool { empty_slots = n }) s)
]
perform wait_empty s = elim s.pool.empty_slots [
  | zero ↦ none
  | suc n ↦ some (tt, with_pool (record s.pool { empty_slots = n }) s)
]
perform post_empty s =
    some (tt, with_pool (record s.pool { empty_slots = s.pool.empty_slots + 1 }) s)
perform wait_full s = elim s.pool.full_slots [
  | zero ↦ none
  | suc n ↦ some (tt, with_pool (record s.pool { full_slots = n }) s)
]
perform post_full s = some (tt, with_pool (record s.pool { full_slots = s.pool.full_slots + 1 }) s)
perform yield_cpu s = some (tt, s)
perform (await_tick target) s = if ltb_ℤ s.global_tick target then none else some (tt, s)
perform read_tick s = some (s.global_tick, s)
perform (print_balance line) s = some (tt, record s { output = line ∷ s.output })

-- A function's code: it returns, or makes an access and goes on with the reply.
pub data Prog (A : Type 0) : Type 0 where
  ret : A → Prog A
  call : (a : Action) → (Reply a → Prog A) → Prog A

infixl 5 ◌>>=◌ ◌>>◌
abbrev pub ◌>>=◌ : {A B : Type 0} → Prog A → (A → Prog B) → Prog B
ret a >>= f = f a
call a k >>= f = call a (λ r. k r >>= f)

abbrev pub ◌>>◌ : {A B : Type 0} → Prog A → Prog B → Prog B
p >> q = p >>= λ _. q

abbrev pub access : (a : Action) → Prog (Reply a)
access a = call a (λ r. ret r)

-- The function runs alone from a given memory; `none` means that it waits without end.
unfoldable pub exec : {A : Type 0} → Prog A → Shared → Option (A × Shared)
exec (ret a) s = some (a, s)
exec (call a k) s = elim (perform a s) [ none ↦ none | some (r, s') ↦ exec (k r) s' ]
