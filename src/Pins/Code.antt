-- ===== src/Pins/Code.antt =====
-- The functions of src/concurrency/buffer_pool.c and src/core/bank.c and the pins of their thread.
use cmsc125_lab3_sabandal_sa.Common.{
  ℕ, ◌<◌, ◌≡◌, refl, Bool, true, false, not, Option, none, some, ℤ, ltb_ℤ, ◌==◌, ◌||◌, ◌==ℤ◌, pos,
  if◌then◌else◌,
}
use cmsc125_lab3_sabandal_sa.Bank.{Bank, get_account}
use cmsc125_lab3_sabandal_sa.Bank.Money.{
  read_balance, get_balance, put_in, deposit, take_out, withdraw, move_locked, move, transfer,
}
use cmsc125_lab3_sabandal_sa.BufferPool.{Placed, already, inserted, no_slot}
use cmsc125_lab3_sabandal_sa.BufferPool.Calls.{
  claim_empty, after_place, load_slot, load_account, after_unpin, unload_account,
}
use cmsc125_lab3_sabandal_sa.LockMgr.{
  slot_id, lock_account, unlock_account, read_lock_account, read_unlock_account, validate_accounts,
  lock_accounts_in_order, unlock_accounts,
}
use cmsc125_lab3_sabandal_sa.Machine.{
  lock_pool, place_account, Prog, ret, call, access, ◌>>=◌, ◌>>◌,
}
use cmsc125_lab3_sabandal_sa.Pins.{Pins, add_pin, remove_pin, MostPins, KeepsPins, Unpinned}

Unpinned-if :
    {A : Type 0} (b : Bool) (x y : Prog A) → Unpinned x → Unpinned y → Unpinned (if b then x else y)
Unpinned-if true x y h g = h
Unpinned-if false x y h g = g

Unpinned-bind :
    {A B : Type 0} (x : Prog A) (f : A → Prog B)
    → Unpinned x
    → ((a : A) → Unpinned (f a))
    → Unpinned (x >>= f)
Unpinned-bind (ret a) f h g = g a
Unpinned-bind (call a k) f h g = (h.0, λ r. Unpinned-bind (k r) f (h.1 r) g)

put_in-Unpinned : (o : Option ℕ) (amount : ℤ) → Unpinned (put_in o amount)
unfolding put_in lock_account unlock_account
put_in-Unpinned none amount = tt
put_in-Unpinned (some acc) amount = (tt, λ _. (tt, λ _. (tt, λ _. (tt, λ _. tt))))

pub deposit-Unpinned : (bank : Bank) (id amount : ℤ) → Unpinned (deposit bank id amount)
unfolding deposit
deposit-Unpinned bank id amount =
    Unpinned-if (ltb_ℤ amount (pos 0)) (ret tt) (put_in (get_account bank id) amount) tt
      (put_in-Unpinned (get_account bank id) amount)

take_out-Unpinned : (o : Option ℕ) (amount : ℤ) → Unpinned (take_out o amount)
unfolding take_out lock_account unlock_account
take_out-Unpinned none amount = tt
take_out-Unpinned (some acc) amount = (
  tt,
  λ _. (
    tt,
    λ balance.
        Unpinned-if (ltb_ℤ balance amount) _ _ (tt, λ _. tt) (tt, λ _. (tt, λ _. (tt, λ _. tt))),
  ),
)

pub withdraw-Unpinned : (bank : Bank) (id amount : ℤ) → Unpinned (withdraw bank id amount)
unfolding withdraw
withdraw-Unpinned bank id amount =
    Unpinned-if (ltb_ℤ amount (pos 0)) (ret false) (take_out (get_account bank id) amount) tt
      (take_out-Unpinned (get_account bank id) amount)

read_balance-Unpinned : (o : Option ℕ) → Unpinned (read_balance o)
unfolding read_balance read_lock_account read_unlock_account
read_balance-Unpinned none = tt
read_balance-Unpinned (some acc) = (tt, λ _. (tt, λ _. (tt, λ _. tt)))

pub get_balance-Unpinned : (bank : Bank) (id : ℤ) → Unpinned (get_balance bank id)
unfolding get_balance
get_balance-Unpinned bank id = read_balance-Unpinned (get_account bank id)

lock_accounts_in_order-Unpinned :
    (bank : Bank) (x y : Option ℕ) → Unpinned (lock_accounts_in_order bank x y)
unfolding lock_accounts_in_order validate_accounts lock_account
lock_accounts_in_order-Unpinned bank none y = tt
lock_accounts_in_order-Unpinned bank (some i) none = tt
lock_accounts_in_order-Unpinned bank (some i) (some j) =
    Unpinned-if (not (not (i == j))) (ret false) _ tt (
      Unpinned-if (ltb_ℤ (slot_id bank i) (slot_id bank j)) _ _ (tt, λ _. (tt, λ _. tt))
        (tt, λ _. (tt, λ _. tt)))

move_locked-Unpinned : (x y : Option ℕ) (amount : ℤ) → Unpinned (move_locked x y amount)
unfolding move_locked unlock_accounts unlock_account
move_locked-Unpinned none y amount = tt
move_locked-Unpinned (some i) none amount = tt
move_locked-Unpinned (some i) (some j) amount = (
  tt,
  λ balance.
      Unpinned-if (ltb_ℤ balance amount) _ _ (tt, λ _. (tt, λ _. tt))
        (tt, λ _. (tt, λ _. (tt, λ _. (tt, λ _. (tt, λ _. (tt, λ _. tt)))))),
)

pub transfer-Unpinned :
    (bank : Bank) (from_id to_id amount : ℤ) → Unpinned (transfer bank from_id to_id amount)
unfolding transfer move
transfer-Unpinned bank from_id to_id amount =
    let x = get_account bank from_id in
    let y = get_account bank to_id in
    Unpinned-if (ltb_ℤ amount (pos 0) || from_id ==ℤ to_id) (ret false) (move bank x y amount) tt (
      Unpinned-if (not (validate_accounts x y)) (ret false) _ tt (
        Unpinned-bind (lock_accounts_in_order bank x y) _ (lock_accounts_in_order-Unpinned bank x y)
          (λ locked.
            Unpinned-if (not locked) (ret false) (move_locked x y amount) tt
              (move_locked-Unpinned x y amount))))

-- One pin more on an account, and on no other.
abbrev pub Added : Pins → ℤ → Unit {0} → Pins → Type 0
Added p id x p' = (j : ℤ) → p' j ≡ add_pin p id j

abbrev pub Removed : Pins → ℤ → Unit {0} → Pins → Type 0
Removed p id x p' = (j : ℤ) → p' j ≡ remove_pin p id j

module _ (room : ℕ) where
  after_place-KeepsPins :
      (p : Pins) (id : ℤ) (r : Placed) → KeepsPins room (add_pin p id) (after_place r) (Added p id)
  unfolding after_place
  after_place-KeepsPins p id already = (tt, λ _ _. (tt, λ _ _ j. refl))
  after_place-KeepsPins p id (inserted true) = (tt, λ _ _. (tt, λ _ _. (tt, λ _ _ j. refl)))
  after_place-KeepsPins p id (inserted false) = (tt, λ _ _. (tt, λ _ _ j. refl))
  after_place-KeepsPins p id no_slot = (tt, λ _ _. (tt, λ _ _ j. refl))

  place-KeepsPins :
      (p : Pins) (id : ℤ) (i : ℕ)
      → p id ≡ 0
      → KeepsPins room p
          (access lock_pool >> (access (place_account id i) >>= after_place))
          (Added p id)
  place-KeepsPins p id i free = (
    tt,
    λ _ _. (
      free,
      elim [
        | already ↦ λ rely. after_place-KeepsPins p id already
        | inserted full ↦ λ rely. after_place-KeepsPins p id (inserted full)
        | no_slot ↦ λ rely. absurd (rely refl)
      ],
    ),
  )

  load_slot-KeepsPins :
      (p : Pins) (id : ℤ) (i : ℕ)
      → MostPins room p
      → p id ≡ 0
      → KeepsPins room p (load_slot id i) (Added p id)
  unfolding load_slot claim_empty
  load_slot-KeepsPins p id i most free = (
    tt,
    elim [
      | true ↦ λ _. place-KeepsPins p id i free
      | false ↦
          λ _. (tt, λ _ _. (tt, λ _ _. (tt, λ _ _. (most, λ _ _. place-KeepsPins p id i free))))
    ],
  )

  -- Loading an account pins it.
  pub load_account-KeepsPins :
      (bank : Bank) (p : Pins) (i : ℕ)
      → MostPins room p
      → p (slot_id bank i) ≡ 0
      → KeepsPins room p (load_account bank (some i)) (Added p (slot_id bank i))
  unfolding load_account
  load_account-KeepsPins bank p i most free = (
    tt,
    λ _ _. (
      free,
      elim [
        | true ↦ λ _. (tt, λ _ _ j. refl)
        | false ↦ λ _. (tt, λ _ _. load_slot-KeepsPins p (slot_id bank i) i most free)
      ],
    ),
  )

  -- Unloading it takes the pin off.
  pub unload_account-KeepsPins :
      (p : Pins) (id : ℤ) → 0 < p id → KeepsPins room p (unload_account id) (Removed p id)
  unfolding unload_account after_unpin
  unload_account-KeepsPins p id pinned = (
    tt,
    λ _ _. (
      pinned,
      elim [
        | true ↦ λ _. (tt, λ _ _. (tt, λ _ _. (tt, λ _ _ j. refl)))
        | false ↦ λ _. (tt, λ _ _ j. refl)
      ],
    ),
  )
