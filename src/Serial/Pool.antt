-- ===== src/Serial/Pool.antt =====
-- `load_account` of src/concurrency/buffer_pool.c when no other thread is about.
use cmsc125_lab3_sabandal_sa.Common.{
  ℕ, zero, suc, ◌+◌, ◌-◌, ◌<◌, ◌≤◌, ◌≡◌, refl, ap, ◌∙◌, Bool, true, false, none, some, List, [],
  ◌∷◌, ℤ, pos, arith, ◌==ℤ◌, length,
}
use cmsc125_lab3_sabandal_sa.CInt.{add_int, sub_int}
use cmsc125_lab3_sabandal_sa.Bank.{Bank}
use cmsc125_lab3_sabandal_sa.BufferPool.{
  BufferPool, BufferSlot, buffer_pool_size, count_load, fill_slot, place, unpin_slot, freed, unpin,
  inserted,
}
use cmsc125_lab3_sabandal_sa.BufferPool.Calls.{claim_empty, after_place, load_slot, load_account}
use cmsc125_lab3_sabandal_sa.LockMgr.{slot_id}
use cmsc125_lab3_sabandal_sa.Machine.{
  Shared, with_pool, lock_pool, unlock_pool, pin_loaded, place_account, count_blocked, try_empty,
  wait_empty, perform, exec,
}
use cmsc125_lab3_sabandal_sa.Machine.Exec.{exec-call, exec-wait}
use cmsc125_lab3_sabandal_sa.Threads.Invariant.{used}
use cmsc125_lab3_sabandal_sa.Serial.{one}
use cmsc125_lab3_sabandal_sa.Serial.Slots.{holding, OnePin, pin_slot-absent, fill_slot-Filled}

abbrev pub occurrences : List ℤ → ℤ → ℕ
occurrences [] id = 0
occurrences (a ∷ rest) id = one a id + occurrences rest id

-- The pool holds the loaded accounts, each once and with one pin, and nothing else.
pub record Holds (loaded : List ℤ) (pool : BufferPool) : Type 0 where
  pub size : length pool.slots ≡ buffer_pool_size
  pub unlocked : pool.pool_lock ≡ false
  pub in_use : used pool.slots ≡ length loaded
  pub empties : pool.empty_slots + length loaded ≡ buffer_pool_size
  pub fulls : pool.full_slots ≡ length loaded
  pub pins : OnePin pool.slots
  pub held : (id : ℤ) → holding pool.slots id ≡ occurrences loaded id

-- The counters after an account has gone.
abbrev pub count_unload : BufferPool → BufferPool
count_unload p = record p {
  unload_count = add_int p.unload_count (pos 1);
  current_usage = sub_int p.current_usage (pos 1);
}

abbrev pub in_pool : Shared → BufferPool → Shared
in_pool m p = with_pool p m

pub lock_pool-step :
    (m : Shared)
    → m.pool.pool_lock ≡ false
    → perform lock_pool m ≡ some (tt, in_pool m (record m.pool { pool_lock = true }))
unfolding perform
lock_pool-step m unlocked = ground (arith, unlocked)

try_empty-step :
    (m : Shared) (n : ℕ)
    → m.pool.empty_slots ≡ suc n
    → perform try_empty m ≡ some (true, in_pool m (record m.pool { empty_slots = n }))
unfolding perform
try_empty-step m n h =
    ap
      (λ k. elim k [
        | zero ↦ some (false, m)
        | suc n ↦ some (true, in_pool m (record m.pool { empty_slots = n }))
      ])
      h

abbrev pool_is_full : BufferPool → Bool
pool_is_full p = add_int p.current_usage (pos 1) ==ℤ pos buffer_pool_size

place-inserted :
    (p : BufferPool) (id : ℤ) (account : ℕ) (slots : List BufferSlot)
    → holding p.slots id ≡ 0
    → fill_slot p.slots id account ≡ some slots
    → place p id account ≡ (count_load (record p { slots = slots }), inserted (pool_is_full p))
unfolding place
place-inserted p id account slots absent filled =
    rw (place, pin_slot-absent p.slots id absent, filled) refl

pub unpin-freed :
    (p : BufferPool) (id : ℤ) (slots : List BufferSlot)
    → unpin_slot p.slots id ≡ freed slots
    → unpin p id ≡ (count_unload (record p { slots = slots }), true)
unfolding unpin
unpin-freed p id slots gone = rw (unpin, gone) refl

-- The pool after an account has come in.
abbrev with_loaded : BufferPool → ℕ → List BufferSlot → BufferPool
with_loaded p n slots = record (count_load (record p { slots = slots })) {
  empty_slots = n;
  pool_lock = false;
  full_slots = p.full_slots + 1;
}

after_place-end :
    (m : Shared) (full : Bool)
    → exec (after_place (inserted full)) m
      ≡ some
          (tt, in_pool m (record m.pool { pool_lock = false; full_slots = m.pool.full_slots + 1 }))
unfolding exec after_place perform
after_place-end m true = refl
after_place-end m false = refl

-- An account that is not loaded comes in, if there is room.
load_slot-end :
    (m : Shared) (id : ℤ) (account n : ℕ) (slots : List BufferSlot)
    → m.pool.pool_lock ≡ false
    → m.pool.empty_slots ≡ suc n
    → holding m.pool.slots id ≡ 0
    → fill_slot m.pool.slots id account ≡ some slots
    → exec (load_slot id account) m ≡ some (tt, in_pool m (with_loaded m.pool n slots))
unfolding load_slot claim_empty perform
load_slot-end m id account n slots unlocked room absent filled =
    let taken : Shared = in_pool m (record m.pool { empty_slots = n }) in
    let locked : Shared = in_pool m (record m.pool { empty_slots = n; pool_lock = true }) in
    exec-call try_empty _ m taken true (try_empty-step m n room)
    ∙ exec-call lock_pool _ taken locked tt (lock_pool-step taken unlocked)
    ∙ exec-call (place_account id account) _ locked
        (in_pool m (count_load (record locked.pool { slots = slots })))
        (inserted (pool_is_full m.pool))
        (ap (λ (p, r). some (r, in_pool m p))
          (place-inserted locked.pool id account slots absent filled))
    ∙ after_place-end (in_pool m (count_load (record locked.pool { slots = slots })))
        (pool_is_full m.pool)

none_empty :
    (m : Shared)
    → m.pool.empty_slots ≡ 0
    → (perform try_empty m ≡ some (false, m)) × (perform wait_empty m ≡ none)
unfolding perform
none_empty m h = (
  ap
      (λ k. elim k [
        | zero ↦ some (false, m)
        | suc n ↦ some (true, in_pool m (record m.pool { empty_slots = n }))
      ])
      h,
  ap
      (λ k. elim k [
        | zero ↦ none
        | suc n ↦ some (tt, in_pool m (record m.pool { empty_slots = n }))
      ])
      h,
)

-- If there is none, the thread waits for ever.
load_slot-waits :
    (m : Shared) (id : ℤ) (account : ℕ)
    → m.pool.pool_lock ≡ false
    → m.pool.empty_slots ≡ 0
    → exec (load_slot id account) m ≡ none
unfolding load_slot claim_empty perform
load_slot-waits m id account unlocked empty =
    exec-call try_empty _ m m false ((none_empty m empty).0)
    ∙ exec-call lock_pool _ m (in_pool m (record m.pool { pool_lock = true })) tt
        (lock_pool-step m unlocked)
    ∙ exec-call count_blocked _ _ _ tt refl
    ∙ exec-call unlock_pool _ _ _ tt refl
    ∙ exec-wait wait_empty _ _ ((none_empty _ empty).1)

-- The first critical section of `load_account` finds nothing.
load_account-absent :
    (bank : Bank) (m : Shared) (account : ℕ)
    → m.pool.pool_lock ≡ false
    → holding m.pool.slots (slot_id bank account) ≡ 0
    → exec (load_account bank (some account)) m
      ≡ exec
          (load_slot (slot_id bank account) account)
          (in_pool m (record m.pool { pool_lock = false }))
unfolding load_account perform
load_account-absent bank m account unlocked absent =
    let locked : Shared = in_pool m (record m.pool { pool_lock = true }) in
    exec-call lock_pool _ m locked tt (lock_pool-step m unlocked)
    ∙ exec-call (pin_loaded (slot_id bank account)) _ locked locked false
        (rw (pin_slot-absent m.pool.slots (slot_id bank account) absent) refl)
    ∙ exec-call unlock_pool _ locked _ tt refl

-- An account that the pool does not hold is loaded while fewer than five are.
pub load_account-Holds :
    (bank : Bank) (m : Shared) (account : ℕ) (loaded : List ℤ)
    → Holds loaded m.pool
    → occurrences loaded (slot_id bank account) ≡ 0
    → length loaded < buffer_pool_size
    → (pool : BufferPool) × (exec (load_account bank (some account)) m
        ≡ some (tt, with_pool pool m))
      × Holds (slot_id bank account ∷ loaded) pool
load_account-Holds bank m account loaded idle absent room =
    let id = slot_id bank account in
    let gone : holding m.pool.slots id ≡ 0 = idle.held id ∙ absent in
    let (slots, f, filled) =
      fill_slot-Filled m.pool.slots id account (omega (arith, idle.in_use, idle.size)) idle.pins in
    let n = buffer_pool_size - suc (length loaded) in
    (
      with_loaded m.pool n slots,
      load_account-absent bank m account idle.unlocked gone
          ∙ load_slot-end (in_pool m (record m.pool { pool_lock = false })) id account n slots refl
              (omega (arith, idle.empties)) gone f,
      record {
        size = filled.size ∙ idle.size;
        unlocked = refl;
        in_use = omega (arith, filled.more, idle.in_use);
        empties = omega (arith, idle.empties);
        fulls = omega (arith, idle.fulls);
        pins = filled.pins;
        held = λ j. omega (arith, filled.held j, idle.held j);
      },
    )

-- The sixth account is waited for without end.
pub load_account-waits :
    (bank : Bank) (m : Shared) (account : ℕ) (loaded : List ℤ)
    → Holds loaded m.pool
    → occurrences loaded (slot_id bank account) ≡ 0
    → buffer_pool_size ≤ length loaded
    → exec (load_account bank (some account)) m ≡ none
load_account-waits bank m account loaded idle absent full =
    load_account-absent bank m account idle.unlocked (idle.held (slot_id bank account) ∙ absent)
    ∙ load_slot-waits (in_pool m (record m.pool { pool_lock = false })) (slot_id bank account)
        account refl (omega (arith, idle.empties))
