-- ===== src/Pins.antt =====
-- A second logic for the code of a thread, which counts the pins that the thread has on accounts in
-- the buffer pool of src/concurrency/buffer_pool.c. `Discipline` has the one for locks and money.
pub mod Slots
pub mod Code
pub mod Operations
pub mod Workers
pub mod Moves
pub mod Steps
pub mod Turns
pub mod Start
pub mod System
pub mod Demand
use cmsc125_lab3_sabandal_sa.Common.{
  ℕ, ◌+◌, ◌-◌, ◌<◌, ◌≤◌, length, List, ◌≡◌, ◌≢◌, refl, sym, subst, true, false, ℤ,
}
use cmsc125_lab3_sabandal_sa.BufferPool.{already, inserted, no_slot}
use cmsc125_lab3_sabandal_sa.Machine.{
  Action, pin_loaded, place_account, unpin_account, wait_empty, await_tick, Reply, Prog, ret, call,
  ◌>>=◌,
}
use cmsc125_lab3_sabandal_sa.Serial.{one}
use cmsc125_lab3_sabandal_sa.Serial.Pool.{occurrences}

-- The pins of a thread on each account.
abbrev pub Pins : Type 0
Pins = ℤ → ℕ

abbrev pub add_pin : Pins → ℤ → Pins
add_pin p id j = p j + one id j

abbrev pub remove_pin : Pins → ℤ → Pins
remove_pin p id j = p j - one id j

-- How an access changes the pins of its thread.
abbrev pub after_pin : (a : Action) → Reply a → Pins → Pins
after_pin (pin_loaded id) true p = add_pin p id
after_pin (pin_loaded id) false p = p
after_pin (place_account id i) already p = add_pin p id
after_pin (place_account id i) (inserted full) p = add_pin p id
after_pin (place_account id i) no_slot p = p
after_pin (unpin_account id) r p = remove_pin p id
after_pin _ r p = p

-- At most `room` accounts are pinned, once each or more.
abbrev pub MostPins : ℕ → Pins → Type 0
MostPins room p =
    (loaded : List ℤ) × (length loaded ≤ room) × ((j : ℤ) → p j ≡ occurrences loaded j)

-- A thread pins an account once at most, takes off only a pin of its own, and waits for the clock or
-- for a free slot with at most `room` pins.
abbrev pub MayPin : ℕ → Action → Pins → Type 0
MayPin room (pin_loaded id) p = p id ≡ 0
MayPin room (place_account id i) p = p id ≡ 0
MayPin room (unpin_account id) p = 0 < p id
MayPin room wait_empty p = MostPins room p
MayPin room (await_tick t) p = MostPins room p
MayPin room _ p = Unit

abbrev pub RelyPin : (a : Action) → Reply a → Type 0
RelyPin (place_account id i) r = r ≢ no_slot
RelyPin _ r = Unit

-- The code keeps to this, and ends with a result and pins of which `Q` holds.
abbrev pub KeepsPins : {A : Type 0} → ℕ → Pins → Prog A → (A → Pins → Type 0) → Type 0
KeepsPins room p (ret x) Q = Q x p
KeepsPins room p (call a k) Q =
    MayPin room a p × ((r : Reply a) → RelyPin a r → KeepsPins room (after_pin a r p) (k r) Q)

pub KeepsPins-bind :
    {A B : Type 0} (room : ℕ) (P : A → Pins → Type 0) (Q : B → Pins → Type 0) (p : Pins)
    (code : Prog A) (f : A → Prog B)
    → KeepsPins room p code P
    → ((x : A) (p' : Pins) → P x p' → KeepsPins room p' (f x) Q)
    → KeepsPins room p (code >>= f) Q
KeepsPins-bind room P Q p (ret x) f h g = g x p h
KeepsPins-bind room P Q p (call a k) f h g =
    (h.0, λ r rely. KeepsPins-bind room P Q (after_pin a r p) (k r) f (h.1 r rely) g)

-- At the end nothing is pinned.
abbrev pub NonePinned : {A : Type 0} → A → Pins → Type 0
NonePinned x p = (j : ℤ) → p j ≡ 0

-- Code without an access that pins.
abbrev pub NoPin : Action → Type 0
NoPin (pin_loaded id) = ⊥
NoPin (place_account id i) = ⊥
NoPin (unpin_account id) = ⊥
NoPin wait_empty = ⊥
NoPin (await_tick t) = ⊥
NoPin _ = Unit

abbrev pub Unpinned : {A : Type 0} → Prog A → Type 0
Unpinned (ret x) = Unit
Unpinned (call a k) = NoPin a × ((r : Reply a) → Unpinned (k r))

pub after_pin_same : (a : Action) → NoPin a → (r : Reply a) (p : Pins) → after_pin a r p ≡ p
after_pin_same (pin_loaded id) h r p = absurd h
after_pin_same (place_account id i) h r p = absurd h
after_pin_same (unpin_account id) h r p = absurd h
after_pin_same wait_empty h r p = absurd h
after_pin_same (await_tick t) h r p = absurd h
after_pin_same a h r p = refl

MayPin-of_NoPin : (room : ℕ) (a : Action) → NoPin a → (p : Pins) → MayPin room a p
MayPin-of_NoPin room (pin_loaded id) h p = absurd h
MayPin-of_NoPin room (place_account id i) h p = absurd h
MayPin-of_NoPin room (unpin_account id) h p = absurd h
MayPin-of_NoPin room wait_empty h p = absurd h
MayPin-of_NoPin room (await_tick t) h p = absurd h
MayPin-of_NoPin room a h p = tt

pub Unpinned-KeepsPins :
    {A : Type 0} (room : ℕ) (p : Pins) (code : Prog A)
    → Unpinned code
    → KeepsPins room p code (λ x p'. p' ≡ p)
Unpinned-KeepsPins room p (ret x) h = refl
Unpinned-KeepsPins room p (call a k) h = (
  MayPin-of_NoPin room a h.0 p,
  λ r rely.
      subst (λ p'. KeepsPins room p' (k r) (λ x p''. p'' ≡ p)) (sym (after_pin_same a h.0 r p))
        (Unpinned-KeepsPins room p (k r) (h.1 r)),
)
