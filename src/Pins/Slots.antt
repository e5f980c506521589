-- ===== src/Pins/Slots.antt =====
-- The slots of the buffer pool as a count of pins for each account.
use cmsc125_lab3_sabandal_sa.Common.{
  ℕ, suc, ◌+◌, ◌<◌, ◌≤◌, ◌≡◌, refl, ap, ◌∙◌, inl, inr, Bool, true, false, not, Option, none, some,
  List, [], ◌∷◌, ℤ, pos, pos_part, arith, ==ℤ-refl, ◌-◌, ◌+ℤ◌, ◌-ℤ◌, leb_ℤ, if◌then◌else◌, negsuc,
  Bool-cases,
}
use cmsc125_lab3_sabandal_sa.CInt.{int_half, add_int, sub_int, add_int_exact, sub_int_exact}
use cmsc125_lab3_sabandal_sa.BufferPool.{
  BufferSlot, holds_account, on_tail, pin_slot, fill_slot, Unpin, absent, kept, freed, unpin_tail,
  unpin_slot,
}
use cmsc125_lab3_sabandal_sa.Threads.Invariant.{used}
use cmsc125_lab3_sabandal_sa.Serial.{one}
use cmsc125_lab3_sabandal_sa.Serial.Slots.{holding, filled_slot}

-- The pins of one slot on an account.
abbrev pins_of : BufferSlot → ℤ → ℕ
pins_of s id = if holds_account s id then pos_part s.pin_count else 0

abbrev pub pins_in : List BufferSlot → ℤ → ℕ
pins_in [] id = 0
pins_in (s ∷ rest) id = pins_of s id + pins_in rest id

-- A slot in use has a pin, and no other holds its account.
abbrev pub SlotsOk : List BufferSlot → Type 0
SlotsOk [] = Unit
SlotsOk (s ∷ rest) =
    (s.in_use ≡ true → ((0 < pos_part s.pin_count) × (holding rest s.account_id ≡ 0)))
    × SlotsOk rest

more_pins :
    (z : ℤ)
    → 0 < pos_part z
    → suc (pos_part z) < int_half
    → pos_part (add_int z (pos 1)) ≡ suc (pos_part z)
unfolding ◌+ℤ◌
more_pins (pos n) h small =
    ap pos_part (add_int_exact (pos n) (pos 1) (ground arith)) ∙ ground arith
more_pins (negsuc n) h small = absurd (omega arith)

fewer_pins :
    (z : ℤ) → 0 < pos_part z → pos_part z < int_half → sub_int z (pos 1) ≡ pos (pos_part z - 1)
unfolding ◌-ℤ◌
fewer_pins (pos n) h small = sub_int_exact (pos n) (pos 1) (ground arith) ∙ ground arith
fewer_pins (negsuc n) h small = absurd (omega arith)

-- What a loaded account gains by one pin more.
pub record Repinned (slots slots' : List BufferSlot) (id : ℤ) : Type 0 where
  pub ok : SlotsOk slots'
  pub counted : (j : ℤ) → pins_in slots' j ≡ pins_in slots j + one id j
  pub same : (j : ℤ) → holding slots' j ≡ holding slots j

abbrev pub Repins : List BufferSlot → ℤ → Option (List BufferSlot) → Type 0
Repins slots id none = holding slots id ≡ 0
Repins slots id (some slots') = Repinned slots slots' id

Repins-tail :
    (s : BufferSlot) (rest : List BufferSlot) (id : ℤ) (o : Option (List BufferSlot))
    → SlotsOk (s ∷ rest)
    → holds_account s id ≡ false
    → Repins rest id o
    → Repins (s ∷ rest) id (on_tail s o)
Repins-tail s rest id none ok e h = ground arith
Repins-tail s rest id (some rest') ok e h = record {
  ok = (λ u. ((ok.0 u).0, h.same s.account_id ∙ (ok.0 u).1), h.ok);
  counted = λ j. omega (arith, h.counted j);
  same = λ j. omega (arith, h.same j);
}

pub pin_slot-Repins :
    (slots : List BufferSlot) (id : ℤ)
    → SlotsOk slots
    → suc (pins_in slots id) < int_half
    → Repins slots id (pin_slot slots id)
unfolding pin_slot
pin_slot-Repins [] id ok small = refl
pin_slot-Repins (s ∷ rest) id ok small = elim (Bool-cases (holds_account s id)) [
  | inl e ↦
      let (positive, alone) = ok.0 (ground arith) in
      let more = more_pins s.pin_count positive (ground arith) in
      rw e (record {
        ok = (λ u. (omega (arith, more), alone), ok.1);
        counted = λ j. ground (arith, more);
        same = λ j. refl;
      })
  | inr e ↦
      rw e (
        Repins-tail s rest id (pin_slot rest id) ok e (pin_slot-Repins rest id ok.1 (ground arith)))
]

-- An account that comes in.
pub record Added (slots slots' : List BufferSlot) (id : ℤ) : Type 0 where
  pub ok : SlotsOk slots'
  pub counted : (j : ℤ) → pins_in slots' j ≡ pins_in slots j + one id j
  pub more : (j : ℤ) → holding slots' j ≡ holding slots j + one id j

abbrev pub Adds : List BufferSlot → ℤ → Option (List BufferSlot) → Type 0
Adds slots id none = Unit
Adds slots id (some slots') = Added slots slots' id

differ :
    (s : BufferSlot) (id : ℤ)
    → holds_account s id ≡ false
    → s.in_use ≡ true
    → one id s.account_id ≡ 0
differ s id e u = ground arith

Adds-tail :
    (s : BufferSlot) (rest : List BufferSlot) (id : ℤ) (o : Option (List BufferSlot))
    → SlotsOk (s ∷ rest)
    → holds_account s id ≡ false
    → Adds rest id o
    → Adds (s ∷ rest) id (on_tail s o)
Adds-tail s rest id none ok e h = tt
Adds-tail s rest id (some rest') ok e h = record {
  ok = (λ u. ((ok.0 u).0, omega (arith, h.more s.account_id, (ok.0 u).1, differ s id e u)), h.ok);
  counted = λ j. omega (arith, h.counted j);
  more = λ j. omega (arith, h.more j);
}

-- A free slot takes the account.
filled-Added :
    (s : BufferSlot) (rest : List BufferSlot) (id : ℤ) (account : ℕ)
    → SlotsOk (s ∷ rest)
    → s.in_use ≡ false
    → holding (s ∷ rest) id ≡ 0
    → Added (s ∷ rest) (filled_slot id account ∷ rest) id
filled-Added s rest id account ok e h = record {
  ok = (λ u. (ground arith, ground arith), ok.1);
  counted = λ j. ground arith;
  more = λ j. ground arith;
}

Adds-if :
    (slots : List BufferSlot) (id : ℤ) (b : Bool) (x y : Option (List BufferSlot))
    → (b ≡ false → Adds slots id x)
    → (b ≡ true → Adds slots id y)
    → Adds slots id (if not b then x else y)
Adds-if slots id true x y h g = g refl
Adds-if slots id false x y h g = h refl

pub fill_slot-Adds :
    (slots : List BufferSlot) (id : ℤ) (account : ℕ)
    → SlotsOk slots
    → holding slots id ≡ 0
    → Adds slots id (fill_slot slots id account)
unfolding fill_slot
fill_slot-Adds [] id account ok h = tt
fill_slot-Adds (s ∷ rest) id account ok h =
    Adds-if (s ∷ rest) id s.in_use _ _ (λ e. filled-Added s rest id account ok e h)
      (λ e.
        Adds-tail s rest id (fill_slot rest id account) ok (ground arith)
          (fill_slot-Adds rest id account ok.1 (ground arith)))

-- A pin that goes, and the account with it if it was the last.
pub record Lowered (slots slots' : List BufferSlot) (id : ℤ) : Type 0 where
  pub ok : SlotsOk slots'
  pub counted : (j : ℤ) → pins_in slots' j + one id j ≡ pins_in slots j
  pub below : (j : ℤ) → holding slots' j ≤ holding slots j

abbrev pub Lowers : List BufferSlot → ℤ → Unpin → Type 0
Lowers slots id absent = pins_in slots id ≡ 0
Lowers slots id (kept slots') = Lowered slots slots' id
Lowers slots id (freed slots') = Lowered slots slots' id

Lowered-tail :
    (s : BufferSlot) (rest rest' : List BufferSlot) (id : ℤ)
    → SlotsOk (s ∷ rest)
    → Lowered rest rest' id
    → Lowered (s ∷ rest) (s ∷ rest') id
Lowered-tail s rest rest' id ok h = record {
  ok = (λ u. ((ok.0 u).0, omega (arith, h.below s.account_id, (ok.0 u).1)), h.ok);
  counted = λ j. omega (arith, h.counted j);
  below = λ j. omega (arith, h.below j);
}

Lowers-tail :
    (s : BufferSlot) (rest : List BufferSlot) (id : ℤ) (u : Unpin)
    → SlotsOk (s ∷ rest)
    → holds_account s id ≡ false
    → Lowers rest id u
    → Lowers (s ∷ rest) id (unpin_tail s u)
Lowers-tail s rest id absent ok e h = ground arith
Lowers-tail s rest id (kept rest') ok e h = Lowered-tail s rest rest' id ok h
Lowers-tail s rest id (freed rest') ok e h = Lowered-tail s rest rest' id ok h

pub unpin_slot-Lowers :
    (slots : List BufferSlot) (id : ℤ)
    → SlotsOk slots
    → pins_in slots id < int_half
    → Lowers slots id (unpin_slot slots id)
unfolding unpin_slot
unpin_slot-Lowers [] id ok small = refl
unpin_slot-Lowers (s ∷ rest) id ok small = elim (Bool-cases (holds_account s id)) [
  | inl e ↦
      let (positive, alone) = ok.0 (ground arith) in
      let fewer = fewer_pins s.pin_count positive (ground arith) in
      elim (Bool-cases (leb_ℤ (sub_int s.pin_count (pos 1)) (pos 0))) [
        | inl last ↦
            rw (e, last)
              (record {
                ok = (λ u. cc, ok.1);
                counted = λ j. ground (arith, fewer);
                below = λ j. omega arith;
              })
        | inr more ↦
            rw (e, more)
              (record {
                ok = (λ u. (ground (arith, fewer), alone), ok.1);
                counted = λ j. ground (arith, fewer);
                below = λ j. omega arith;
              })
      ]
  | inr e ↦ rw e (
      Lowers-tail s rest id (unpin_slot rest id) ok e
        (unpin_slot-Lowers rest id ok.1 (ground arith)))
]

-- Without pins no slot is in use.
pub no_pins-used :
    (slots : List BufferSlot) → SlotsOk slots → ((j : ℤ) → pins_in slots j ≡ 0) → used slots ≡ 0
no_pins-used [] ok h = refl
no_pins-used (s ∷ rest) ok h = elim (Bool-cases s.in_use) [
  | inl e ↦ absurd (ground (arith, h s.account_id, (ok.0 e).0, ==ℤ-refl s.account_id))
  | inr e ↦ let below = no_pins-used rest ok.1 (λ j. omega (arith, h j)) in ground arith
]
