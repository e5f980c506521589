-- ===== src/Serial/Unload.antt =====
-- `unload_account` of src/concurrency/buffer_pool.c when no other thread is about.
use cmsc125_lab3_sabandal_sa.Common.{
  ℕ, zero, suc, ◌+◌, ◌<◌, ◌≡◌, refl, ap, ◌∙◌, true, false, none, some, List, ◌∷◌, ℤ, arith, length,
}
use cmsc125_lab3_sabandal_sa.BufferPool.{BufferPool, BufferSlot, unpin_slot, freed}
use cmsc125_lab3_sabandal_sa.BufferPool.Calls.{after_unpin, unload_account}
use cmsc125_lab3_sabandal_sa.Machine.{
  Shared, with_pool, lock_pool, unlock_pool, unpin_account, post_empty, wait_full, perform, exec,
}
use cmsc125_lab3_sabandal_sa.Machine.Exec.{exec-call, exec-ret}
use cmsc125_lab3_sabandal_sa.Serial.Slots.{holding, unpin_slot-Freed}
use cmsc125_lab3_sabandal_sa.Serial.Pool.{Holds, count_unload, in_pool, lock_pool-step, unpin-freed}

wait_full-step :
    (m : Shared) (n : ℕ)
    → m.pool.full_slots ≡ suc n
    → perform wait_full m ≡ some (tt, in_pool m (record m.pool { full_slots = n }))
unfolding perform
wait_full-step m n h =
    ap
      (λ k. elim k [
        | zero ↦ none
        | suc n ↦ some (tt, in_pool m (record m.pool { full_slots = n }))
      ])
      h

-- The pool after an account has gone.
abbrev with_unloaded : BufferPool → ℕ → List BufferSlot → BufferPool
with_unloaded p n slots = record (count_unload (record p { slots = slots })) {
  full_slots = n;
  pool_lock = false;
  empty_slots = p.empty_slots + 1;
}

unload_account-end :
    (m : Shared) (id : ℤ) (n : ℕ) (slots : List BufferSlot)
    → m.pool.pool_lock ≡ false
    → m.pool.full_slots ≡ suc n
    → unpin_slot m.pool.slots id ≡ freed slots
    → exec (unload_account id) m ≡ some (tt, in_pool m (with_unloaded m.pool n slots))
unfolding unload_account after_unpin perform
unload_account-end m id n slots unlocked some_full gone =
    let locked : Shared = in_pool m (record m.pool { pool_lock = true }) in
    let unpinned : Shared = in_pool m (count_unload (record locked.pool { slots = slots })) in
    let opened : Shared = in_pool m (record unpinned.pool { pool_lock = false }) in
    exec-call lock_pool _ m locked tt (lock_pool-step m unlocked)
    ∙ exec-call (unpin_account id) _ locked unpinned true
        (ap (λ (p, r). some (r, in_pool m p)) (unpin-freed locked.pool id slots gone))
    ∙ exec-call unlock_pool _ unpinned opened tt refl
    ∙ exec-call wait_full _ opened (in_pool m (record opened.pool { full_slots = n })) tt
        (wait_full-step opened n some_full)
    ∙ exec-call post_empty _ _ _ tt refl
    ∙ exec-ret tt _

-- A loaded account is unloaded.
pub unload_account-Holds :
    (m : Shared) (id : ℤ) (loaded : List ℤ)
    → Holds (id ∷ loaded) m.pool
    → (pool : BufferPool) × (exec (unload_account id) m ≡ some (tt, with_pool pool m))
      × Holds loaded pool
unload_account-Holds m id loaded idle =
    let present : 0 < holding m.pool.slots id = ground (arith, idle.held id) in
    let (slots, f, gone) = unpin_slot-Freed m.pool.slots id present idle.pins in
    (
      with_unloaded m.pool (length loaded) slots,
      unload_account-end m id (length loaded) slots idle.unlocked idle.fulls f,
      record {
        size = gone.size ∙ idle.size;
        unlocked = refl;
        in_use = omega (arith, gone.less, idle.in_use);
        empties = omega (arith, idle.empties);
        fulls = refl;
        pins = gone.pins;
        held = λ j. omega (arith, gone.held j, idle.held j);
      },
    )
