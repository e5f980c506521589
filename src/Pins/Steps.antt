-- ===== src/Pins/Steps.antt =====
-- One access of a thread that keeps to its pins keeps the slots of the buffer pool in step with the
-- pins of all threads.
use cmsc125_lab3_sabandal_sa.Common.{
  ℕ, ◌<◌, ◌≡◌, refl, sym, subst, inl, inr, Option, none, some, List, ℤ, arith, update, Option-cases,
}
use cmsc125_lab3_sabandal_sa.CInt.{int_half}
use cmsc125_lab3_sabandal_sa.BufferPool.{
  BufferSlot, pin_slot, fill_slot, place, unpin, Unpin, absent, kept, freed, unpin_slot,
}
use cmsc125_lab3_sabandal_sa.Machine.{
  Shared, Action, pin_loaded, place_account, unpin_account, Reply, perform,
}
use cmsc125_lab3_sabandal_sa.Pins.{Pins, add_pin, remove_pin, after_pin, MayPin}
use cmsc125_lab3_sabandal_sa.Pins.Slots.{
  Repins, pin_slot-Repins, Adds, fill_slot-Adds, Lowers, unpin_slot-Lowers,
}
use cmsc125_lab3_sabandal_sa.Pins.Moves.{
  PinsOk, same-PinsOk, added-PinsOk, removed-PinsOk, pins_below, room, unpin-finds,
}

module _ (n : ℕ) (g : ℕ → Pins) (m m' : Shared) (pinned : PinsOk n g m.pool.slots) (t : ℕ)
    (lt : t < n) (small : n < int_half) where
  repinned-PinsOk :
      (id : ℤ) (slots' : List BufferSlot)
      → g t id ≡ 0
      → pin_slot m.pool.slots id ≡ some slots'
      → PinsOk n (update g t (add_pin (g t) id)) slots'
  repinned-PinsOk id slots' free e =
      let more : Repins m.pool.slots id (some slots') = subst (Repins m.pool.slots id) e (
        pin_slot-Repins m.pool.slots id pinned.ok
          (room n g m.pool.slots pinned t lt id small free)) in
      added-PinsOk n g m.pool.slots pinned t lt id slots' free more.ok more.counted

  filled-PinsOk :
      (id : ℤ) (account : ℕ) (slots' : List BufferSlot)
      → g t id ≡ 0
      → pin_slot m.pool.slots id ≡ none
      → fill_slot m.pool.slots id account ≡ some slots'
      → PinsOk n (update g t (add_pin (g t) id)) slots'
  filled-PinsOk id account slots' free e fill =
      let missing = subst (Repins m.pool.slots id) e (
        pin_slot-Repins m.pool.slots id pinned.ok
          (room n g m.pool.slots pinned t lt id small free)) in
      let more : Adds m.pool.slots id (some slots') =
        subst (Adds m.pool.slots id) fill
          (fill_slot-Adds m.pool.slots id account pinned.ok missing) in
      added-PinsOk n g m.pool.slots pinned t lt id slots' free more.ok more.counted

  abbrev Stays : (a : Action) → Option (Reply a × Shared) → Type 0
  Stays a none = Unit
  Stays a (some (r, m')) = PinsOk n (update g t (after_pin a r (g t))) m'.pool.slots

  same : PinsOk n (update g t (g t)) m.pool.slots
  same = same-PinsOk n g m.pool.slots pinned t lt

  pin_loaded-Stays : (id : ℤ) → g t id ≡ 0 → Stays (pin_loaded id) (perform (pin_loaded id) m)
  unfolding perform
  pin_loaded-Stays id free = elim (Option-cases (pin_slot m.pool.slots id)) [
    | inl e ↦ rw e same
    | inr (slots, e) ↦ rw e (repinned-PinsOk id slots free e)
  ]

  placed-PinsOk :
      (id : ℤ) (i : ℕ)
      → g t id ≡ 0
      → PinsOk n
          (update g t (after_pin (place_account id i) (place m.pool id i).1 (g t)))
          (place m.pool id i).0.slots
  unfolding place
  placed-PinsOk id i free = elim (Option-cases (pin_slot m.pool.slots id)) [
    | inl e ↦ elim (Option-cases (fill_slot m.pool.slots id i)) [
      | inl full ↦ rw (e, full, place) same
      | inr (slots, fill) ↦ rw (e, fill, place) (filled-PinsOk id i slots free e fill)
    ]
    | inr (slots, e) ↦ rw (e, place) (repinned-PinsOk id slots free e)
  ]

  unpinned :
      (id : ℤ) (u : Unpin) → 0 < g t id → unpin_slot m.pool.slots id ≡ u → Lowers m.pool.slots id u
  unpinned id u mine e = subst (Lowers m.pool.slots id) e (
      unpin_slot-Lowers m.pool.slots id pinned.ok
        (pins_below n g m.pool.slots pinned t lt id small))

  -- What becomes of the slots.
  abbrev slots_after : Unpin → List BufferSlot
  slots_after absent = m.pool.slots
  slots_after (kept slots) = slots
  slots_after (freed slots) = slots

  lowered-PinsOk :
      (id : ℤ) (u : Unpin)
      → 0 < g t id
      → Lowers m.pool.slots id u
      → PinsOk n (update g t (remove_pin (g t) id)) (slots_after u)
  lowered-PinsOk id absent mine low =
      absurd (omega (arith, low, unpin-finds n g m.pool.slots pinned t lt id mine))
  lowered-PinsOk id (kept slots) mine low =
      removed-PinsOk n g m.pool.slots pinned t lt id slots mine low
  lowered-PinsOk id (freed slots) mine low =
      removed-PinsOk n g m.pool.slots pinned t lt id slots mine low

  unpin-slots : (id : ℤ) → (unpin m.pool id).0.slots ≡ slots_after (unpin_slot m.pool.slots id)
  unfolding unpin
  unpin-slots id = ground arith

  unpin_account-Stays :
      (id : ℤ) → 0 < g t id → Stays (unpin_account id) (perform (unpin_account id) m)
  unfolding perform
  unpin_account-Stays id mine = rw (unpin-slots id) (
      lowered-PinsOk id (unpin_slot m.pool.slots id) mine
        (unpinned id (unpin_slot m.pool.slots id) mine refl))

  place_account-Stays :
      (id : ℤ) (i : ℕ) → g t id ≡ 0 → Stays (place_account id i) (perform (place_account id i) m)
  unfolding perform
  place_account-Stays id i free = placed-PinsOk id i free

  of_Stays :
      (a : Action) (r : Reply a)
      → Stays a (perform a m)
      → perform a m ≡ some (r, m')
      → PinsOk n (update g t (after_pin a r (g t))) m'.pool.slots
  of_Stays a r h e = subst (Stays a) e h

  -- An access that takes or leaves no pin.
  abbrev Still : Action → Type 0
  Still (pin_loaded id) = ⊥
  Still (place_account id i) = ⊥
  Still (unpin_account id) = ⊥
  Still a = Unit

  Still-slots :
      (a : Action) (r : Reply a)
      → Still a
      → perform a m ≡ some (r, m')
      → m'.pool.slots ≡ m.pool.slots
  unfolding perform
  Still-slots (pin_loaded id) r still h = absurd still
  Still-slots (place_account id i) r still h = absurd still
  Still-slots (unpin_account id) r still h = absurd still
  Still-slots a r still h = ground arith

  Still-pins : (a : Action) (r : Reply a) → Still a → (p : Pins) → after_pin a r p ≡ p
  Still-pins (pin_loaded id) r still p = absurd still
  Still-pins (place_account id i) r still p = absurd still
  Still-pins (unpin_account id) r still p = absurd still
  Still-pins a r still p = refl

  Still-PinsOk :
      (a : Action) (r : Reply a)
      → Still a
      → perform a m ≡ some (r, m')
      → PinsOk n (update g t (after_pin a r (g t))) m'.pool.slots
  Still-PinsOk a r still h =
      subst (PinsOk n (update g t (after_pin a r (g t)))) (sym (Still-slots a r still h))
        (subst (λ p. PinsOk n (update g t p) m.pool.slots) (sym (Still-pins a r still (g t))) same)

  pub perform-PinsOk :
      (room : ℕ) (a : Action) (r : Reply a)
      → MayPin room a (g t)
      → perform a m ≡ some (r, m')
      → PinsOk n (update g t (after_pin a r (g t))) m'.pool.slots
  perform-PinsOk room (pin_loaded id) r may h =
      of_Stays (pin_loaded id) r (pin_loaded-Stays id may) h
  perform-PinsOk room (place_account id i) r may h =
      of_Stays (place_account id i) r (place_account-Stays id i may) h
  perform-PinsOk room (unpin_account id) r may h =
      of_Stays (unpin_account id) r (unpin_account-Stays id may) h
  perform-PinsOk room a r may h = Still-PinsOk a r tt h
