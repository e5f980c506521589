-- ===== src/Serial/Slots.antt =====
-- The searches of src/concurrency/buffer_pool.c in slots that each have one pin: what is found, what
-- is filled, what is freed.
use cmsc125_lab3_sabandal_sa.Common.{
  ℕ, suc, ◌+◌, ◌<◌, ◌≡◌, refl, inl, inr, true, none, some, List, [], ◌∷◌, ℤ, pos, arith, ◌-ℤ◌,
  length, Bool-cases,
}
use cmsc125_lab3_sabandal_sa.CInt.{wrap_int, sub_int}
use cmsc125_lab3_sabandal_sa.BufferPool.{
  BufferSlot, free_slot, holds_account, pin_slot, fill_slot, freed, unpin_slot,
}
use cmsc125_lab3_sabandal_sa.Threads.Invariant.{bit, used}
use cmsc125_lab3_sabandal_sa.Serial.{one}

-- The slots in use with an account.
abbrev pub holding : List BufferSlot → ℤ → ℕ
holding [] id = 0
holding (s ∷ rest) id = bit (holds_account s id) + holding rest id

abbrev pub OnePin : List BufferSlot → Type 0
OnePin [] = Unit
OnePin (s ∷ rest) = (s.in_use ≡ true → s.pin_count ≡ pos 1) × OnePin rest

pub pin_slot-absent :
    (slots : List BufferSlot) (id : ℤ) → holding slots id ≡ 0 → pin_slot slots id ≡ none
unfolding pin_slot
pin_slot-absent [] id h = refl
pin_slot-absent (s ∷ rest) id h = elim (Bool-cases (holds_account s id)) [
  | inl e ↦ absurd (ground arith)
  | inr e ↦ let below = pin_slot-absent rest id (ground arith) in rw (e, below) refl
]

abbrev pub filled_slot : ℤ → ℕ → BufferSlot
filled_slot id account = record {
  account_id = id;
  data_ptr = some account;
  in_use = true;
  pin_count = pos 1;
}

-- The slots after the account has come in.
pub record Filled (slots slots' : List BufferSlot) (id : ℤ) : Type 0 where
  pub size : length slots' ≡ length slots
  pub more : used slots' ≡ suc (used slots)
  pub held : (j : ℤ) → holding slots' j ≡ holding slots j + one id j
  pub pins : OnePin slots'

pub fill_slot-Filled :
    (slots : List BufferSlot) (id : ℤ) (account : ℕ)
    → used slots < length slots
    → OnePin slots
    → (slots' : List BufferSlot) × (fill_slot slots id account ≡ some slots')
      × Filled slots slots' id
unfolding fill_slot
fill_slot-Filled [] id account room pins = absurd (omega arith)
fill_slot-Filled (s ∷ rest) id account room pins = elim (Bool-cases s.in_use) [
  | inl e ↦
      let (rest', f, filled) = fill_slot-Filled rest id account (ground arith) pins.1 in
      (
        s ∷ rest',
        rw (e, f) refl,
        record {
          size = omega (arith, filled.size);
          more = omega (arith, filled.more);
          held = λ j. omega (arith, filled.held j);
          pins = (pins.0, filled.pins);
        },
      )
  | inr e ↦ (
    filled_slot id account ∷ rest,
    rw e refl,
    record {
      size = refl;
      more = ground arith;
      held = λ j. ground arith;
      pins = (λ h. refl, pins.1);
    },
  )
]

-- And after it has gone.
pub record Freed (slots slots' : List BufferSlot) (id : ℤ) : Type 0 where
  pub size : length slots' ≡ length slots
  pub less : suc (used slots') ≡ used slots
  pub held : (j : ℤ) → holding slots' j + one id j ≡ holding slots j
  pub pins : OnePin slots'

last_pin : (pins : ℤ) → pins ≡ pos 1 → sub_int pins (pos 1) ≡ pos 0
unfolding wrap_int sub_int ◌-ℤ◌
last_pin pins h = rw h refl

pub unpin_slot-Freed :
    (slots : List BufferSlot) (id : ℤ)
    → 0 < holding slots id
    → OnePin slots
    → (slots' : List BufferSlot) × (unpin_slot slots id ≡ freed slots') × Freed slots slots' id
unfolding unpin_slot
unpin_slot-Freed [] id some_slot pins = absurd (omega arith)
unpin_slot-Freed (s ∷ rest) id some_slot pins = elim (Bool-cases (holds_account s id)) [
  | inl e ↦
      let last : sub_int s.pin_count (pos 1) ≡ pos 0 =
        last_pin s.pin_count (pins.0 (ground arith)) in
      (
        free_slot ∷ rest,
        rw (e, last) refl,
        record {
          size = refl;
          less = ground arith;
          held = λ j. ground arith;
          pins = (λ h. cc, pins.1);
        },
      )
  | inr e ↦
      let (rest', f, gone) = unpin_slot-Freed rest id (ground arith) pins.1 in
      (
        s ∷ rest',
        rw (e, f) refl,
        record {
          size = omega (arith, gone.size);
          less = omega (arith, gone.less);
          held = λ j. omega (arith, gone.held j);
          pins = (pins.0, gone.pins);
        },
      )
]
