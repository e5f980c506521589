-- ===== src/Pins/Moves.antt =====
-- Slots and pins of all threads that change alike.
use cmsc125_lab3_sabandal_sa.Common.{
  ℕ, zero, suc, ◌+◌, ◌<◌, ◌≤◌, ◌≡◌, refl, subst, ap, inl, inr, true, false, List, ℤ, arith, update,
  update_self, update_ne, total, total-update, total-ge, total-zero, total-suc, ◌==ℤ◌, ==ℤ-eq,
  ==ℤ-refl, Bool-cases, ℕ_discrete,
}
use cmsc125_lab3_sabandal_sa.CInt.{int_half}
use cmsc125_lab3_sabandal_sa.BufferPool.{BufferSlot}
use cmsc125_lab3_sabandal_sa.Serial.{one}
use cmsc125_lab3_sabandal_sa.Pins.{Pins, add_pin, remove_pin}
use cmsc125_lab3_sabandal_sa.Pins.Slots.{pins_in, SlotsOk, Lowered}

-- The pins of `n` threads and the slots.
pub record PinsOk (n : ℕ) (g : ℕ → Pins) (slots : List BufferSlot) : Type 0 where
  pub ok : SlotsOk slots
  pub counted : (j : ℤ) → pins_in slots j ≡ total (λ (p : Pins). p j) n g
  pub once : (i : ℕ) (j : ℤ) → i < n → g i j ≤ 1

total_below :
    (n : ℕ) (g : ℕ → Pins) (j : ℤ)
    → ((i : ℕ) → i < n → g i j ≤ 1)
    → total (λ (p : Pins). p j) n g ≤ n
total_below zero g j h = omega (arith, total-zero (λ (p : Pins). p j) g)
total_below (suc n) g j h = omega (
  arith,
  total-suc (λ (p : Pins). p j) n g,
  h n (omega arith),
  total_below n g j (λ i lt. h i (omega arith)),
)

one_hit : (id j : ℤ) → (id ==ℤ j) ≡ true → one id j ≡ 1
one_hit id j h = ground arith

one_miss : (id j : ℤ) → (id ==ℤ j) ≡ false → one id j ≡ 0
one_miss id j h = ground arith

add_pin_once : (p : Pins) (id : ℤ) → p id ≡ 0 → ((j : ℤ) → p j ≤ 1) → (j : ℤ) → add_pin p id j ≤ 1
add_pin_once p id free h j = elim (Bool-cases (id ==ℤ j)) [
  | inl e ↦ omega (arith, ap p (==ℤ-eq id j e), one_hit id j e)
  | inr e ↦ omega (arith, h j, one_miss id j e)
]

remove_pin_back : (p : Pins) (id : ℤ) → 0 < p id → (j : ℤ) → remove_pin p id j + one id j ≡ p j
remove_pin_back p id pinned j = elim (Bool-cases (id ==ℤ j)) [
  | inl e ↦ omega (arith, ap p (==ℤ-eq id j e), one_hit id j e)
  | inr e ↦ omega (arith, one_miss id j e)
]

module _ (n : ℕ) (g : ℕ → Pins) (slots : List BufferSlot) (pinned : PinsOk n g slots) (t : ℕ)
    (lt : t < n) where
  update-once : (p : Pins) → ((j : ℤ) → p j ≤ 1) → (i : ℕ) (j : ℤ) → i < n → update g t p i j ≤ 1
  update-once p h i j lt_i = elim (ℕ_discrete t i) [
    | yes mine ↦ subst (λ k. update g t p k j ≤ 1) mine (rw (update_self g t p) (h j))
    | no other ↦ rw (update_ne g t i p other) (pinned.once i j lt_i)
  ]

  -- Slots and pins change alike.
  move-PinsOk :
      (p : Pins) (slots' : List BufferSlot)
      → SlotsOk slots'
      → ((j : ℤ) → p j ≤ 1)
      → ((j : ℤ) → pins_in slots' j + g t j ≡ pins_in slots j + p j)
      → PinsOk n (update g t p) slots'
  move-PinsOk p slots' ok h e = record {
    ok = ok;
    counted =
        λ j. omega (arith, e j, pinned.counted j, total-update (λ (q : Pins). q j) n g t p lt);
    once = update-once p h;
  }

  pub same-PinsOk : PinsOk n (update g t (g t)) slots
  same-PinsOk = move-PinsOk (g t) slots pinned.ok (λ j. pinned.once t j lt) (λ j. refl)

  pub added-PinsOk :
      (id : ℤ) (slots' : List BufferSlot)
      → g t id ≡ 0
      → SlotsOk slots'
      → ((j : ℤ) → pins_in slots' j ≡ pins_in slots j + one id j)
      → PinsOk n (update g t (add_pin (g t) id)) slots'
  added-PinsOk id slots' free ok more =
      move-PinsOk (add_pin (g t) id) slots' ok
        (add_pin_once (g t) id free (λ j. pinned.once t j lt)) (λ j. omega (arith, more j))

  pub removed-PinsOk :
      (id : ℤ) (slots' : List BufferSlot)
      → 0 < g t id
      → Lowered slots slots' id
      → PinsOk n (update g t (remove_pin (g t) id)) slots'
  removed-PinsOk id slots' mine low =
      move-PinsOk (remove_pin (g t) id) slots' low.ok (λ j. omega (arith, pinned.once t j lt))
        (λ j. omega (arith, low.counted j, remove_pin_back (g t) id mine j))

  -- A pin more does not overflow.
  pub pins_below : (id : ℤ) → n < int_half → pins_in slots id < int_half
  pins_below id small =
      omega (arith, pinned.counted id, total_below n g id (λ i lt. pinned.once i id lt))

  pub room : (id : ℤ) → n < int_half → g t id ≡ 0 → suc (pins_in slots id) < int_half
  room id small free = omega (
    arith,
    pinned.counted id,
    one_hit id id (==ℤ-refl id),
    total-update (λ (q : Pins). q id) n g t (add_pin (g t) id) lt,
    total_below n (update g t (add_pin (g t) id)) id (λ i lt_i.
        update-once (add_pin (g t) id) (add_pin_once (g t) id free (λ j. pinned.once t j lt)) i id
          lt_i),
  )

  -- The slots hold what a thread takes its pin off.
  pub unpin-finds : (id : ℤ) → 0 < g t id → 0 < pins_in slots id
  unpin-finds id mine = omega (arith, pinned.counted id, total-ge (λ (q : Pins). q id) n g t lt)
