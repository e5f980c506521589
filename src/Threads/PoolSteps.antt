-- ===== src/Threads/PoolSteps.antt =====
-- One access of a thread that keeps to the logic keeps the slots, the semaphores and the mutex of
-- the buffer pool in step with the claims; and an account always finds a slot.
use cmsc125_lab3_sabandal_sa.Common.{
  ℕ, ◌+◌, ◌-◌, ◌<◌, ◌≤◌, ◌≡◌, refl, ◌≢◌, Bool, none, some, List, [], ◌∷◌, ℤ, pos, arith, length,
  update, total, total-update, total-ge, Option-cases, inl, inr, ◌+ℤ◌, ◌-ℤ◌,
}
use cmsc125_lab3_sabandal_sa.CInt.{add_int, sub_int, wrap_int}
use cmsc125_lab3_sabandal_sa.BufferPool.{
  BufferSlot, buffer_pool_size, pin_slot, fill_slot, Placed, no_slot, Unpin, absent, kept, freed,
  unpin_slot,
}
use cmsc125_lab3_sabandal_sa.Bank.{Bank}
use cmsc125_lab3_sabandal_sa.Machine.{
  Shared, Action, lock_pool, pin_loaded, place_account, unpin_account, Reply, perform,
}
use cmsc125_lab3_sabandal_sa.Discipline.{Claim, Allowed, after}
use cmsc125_lab3_sabandal_sa.Threads.Invariant.{used, PoolOk}

pub pin_slot-used :
    (slots after : List BufferSlot) (id : ℤ)
    → pin_slot slots id ≡ some after
    → (length after ≡ length slots) × (used after ≡ used slots)
unfolding pin_slot
pin_slot-used [] after id h = cc
pin_slot-used (s ∷ rest) after id h = elim (Option-cases (pin_slot rest id)) [
  | inl e ↦ ground arith
  | inr (rest', e) ↦ ground (arith, pin_slot-used rest rest' id e)
]

pub fill_slot-used :
    (slots after : List BufferSlot) (id : ℤ) (i : ℕ)
    → fill_slot slots id i ≡ some after
    → (length after ≡ length slots) × (used after ≡ used slots + 1)
unfolding fill_slot
fill_slot-used [] after id i h = cc
fill_slot-used (s ∷ rest) after id i h = elim (Option-cases (fill_slot rest id i)) [
  | inl e ↦ ground arith
  | inr (rest', e) ↦ ground (arith, fill_slot-used rest rest' id i e)
]

-- There is no free slot only if every slot is in use.
fill_slot-none :
    (slots : List BufferSlot) (id : ℤ) (i : ℕ)
    → fill_slot slots id i ≡ none
    → used slots ≡ length slots
unfolding fill_slot
fill_slot-none [] id i h = refl
fill_slot-none (s ∷ rest) id i h = elim (Option-cases (fill_slot rest id i)) [
  | inl e ↦ ground (arith, fill_slot-none rest id i e)
  | inr (rest', e) ↦ ground arith
]

abbrev pub Unpinned : List BufferSlot → Unpin → Type 0
Unpinned slots absent = Unit
Unpinned slots (kept after) = (length after ≡ length slots) × (used after ≡ used slots)
Unpinned slots (freed after) = (length after ≡ length slots) × (used after + 1 ≡ used slots)

pub unpin_slot-used : (slots : List BufferSlot) (id : ℤ) → Unpinned slots (unpin_slot slots id)
unfolding unpin_slot
unpin_slot-used [] id = tt
unpin_slot-used (s ∷ rest) id = ground (arith, unpin_slot-used rest id)

add_one : (u : ℕ) → u < buffer_pool_size → add_int (pos u) (pos 1) ≡ pos (u + 1)
unfolding add_int wrap_int ◌+ℤ◌
add_one u h = ground arith

sub_one : (u : ℕ) → 0 < u → u ≤ buffer_pool_size → sub_int (pos u) (pos 1) ≡ pos (u - 1)
unfolding sub_int wrap_int ◌-ℤ◌
sub_one u h k = ground arith

module _ (bank : Bank) (n : ℕ) (g : ℕ → Claim) (m m' : Shared) (ok : PoolOk n g m) (t : ℕ)
    (lt : t < n) where
  -- The four sums after thread `t` goes on with claim `c`.
  record Sums (c : Claim) : Type 0 where
    mutexes :
        total (λ (c : Claim). c.mutex) n (update g t c) + (g t).mutex
        ≡ total (λ (c : Claim). c.mutex) n g + c.mutex
    credits :
        total (λ (c : Claim). c.credit) n (update g t c) + (g t).credit
        ≡ total (λ (c : Claim). c.credit) n g + c.credit
    debts :
        total (λ (c : Claim). c.owed) n (update g t c) + (g t).owed
        ≡ total (λ (c : Claim). c.owed) n g + c.owed
    dues :
        total (λ (c : Claim). c.due) n (update g t c) + (g t).due
        ≡ total (λ (c : Claim). c.due) n g + c.due

  sums : (c : Claim) → Sums c
  sums c = record {
    mutexes = total-update (λ (c : Claim). c.mutex) n g t c lt;
    credits = total-update (λ (c : Claim). c.credit) n g t c lt;
    debts = total-update (λ (c : Claim). c.owed) n g t c lt;
    dues = total-update (λ (c : Claim). c.due) n g t c lt;
  }

  mutex-PoolOk :
      (r : Unit {0})
      → Allowed bank lock_pool (g t)
      → perform lock_pool m ≡ some (r, m')
      → PoolOk n (update g t (after lock_pool r (g t))) m'
  unfolding perform
  mutex-PoolOk r may h =
      let s = sums (after lock_pool r (g t)) in
      record {
        size = ground arith;
        mutex = ground (arith, s.mutexes);
        empties = ground (arith, s.credits);
        fulls = ground (arith, s.debts, s.dues);
        usage = ground arith;
      }

  pin-PoolOk :
      (id : ℤ) (r : Bool)
      → perform (pin_loaded id) m ≡ some (r, m')
      → PoolOk n (update g t (after (pin_loaded id) r (g t))) m'
  unfolding perform
  pin-PoolOk id r h =
      let s = sums (g t) in
      elim (Option-cases (pin_slot m.pool.slots id)) [
        | inl e ↦ record {
          size = ground arith;
          mutex = ground (arith, s.mutexes);
          empties = ground (arith, s.credits);
          fulls = ground (arith, s.debts, s.dues);
          usage = ground arith;
        }
        | inr (slots, e) ↦
            let same = pin_slot-used m.pool.slots slots id e in
            record {
              size = ground (arith, same);
              mutex = ground (arith, s.mutexes);
              empties = ground (arith, s.credits, same);
              fulls = ground (arith, s.debts, s.dues, same);
              usage = ground (arith, same);
            }
      ]

  -- With a unit of `empty_slots` in hand there is a slot free.
  room : 0 < (g t).credit → used m.pool.slots < buffer_pool_size
  room h = omega (arith, ok.empties, total-ge (λ (c : Claim). c.credit) n g t lt)

  place-PoolOk :
      (id : ℤ) (i : ℕ) (r : Placed)
      → 0 < (g t).credit
      → perform (place_account id i) m ≡ some (r, m')
      → PoolOk n (update g t (after (place_account id i) r (g t))) m'
  unfolding perform
  place-PoolOk id i r may h =
      let s = sums (after (place_account id i) r (g t)) in
      elim (Option-cases (pin_slot m.pool.slots id)) [
        | inl e ↦ elim (Option-cases (fill_slot m.pool.slots id i)) [
          | inl full ↦
              absurd (omega (arith, room may, fill_slot-none m.pool.slots id i full, ok.size))
          | inr (slots, fill) ↦
              let more = fill_slot-used m.pool.slots slots id i fill in
              let one = add_one (used m.pool.slots) (room may) in
              record {
                size = ground (arith, more);
                mutex = ground (arith, s.mutexes);
                empties = ground (arith, s.credits, more);
                fulls = ground (arith, s.debts, s.dues, more);
                usage = ground (arith, more, one);
              }
        ]
        | inr (slots, e) ↦
            let same = pin_slot-used m.pool.slots slots id e in
            record {
              size = ground (arith, same);
              mutex = ground (arith, s.mutexes);
              empties = ground (arith, s.credits, same);
              fulls = ground (arith, s.debts, s.dues, same);
              usage = ground (arith, same);
            }
      ]

  -- So the access that places an account does place it.
  pub place-Rely :
      (id : ℤ) (i : ℕ) (r : Placed)
      → 0 < (g t).credit
      → perform (place_account id i) m ≡ some (r, m')
      → r ≢ no_slot
  unfolding perform
  place-Rely id i r may h bad = elim (Option-cases (pin_slot m.pool.slots id)) [
    | inl e ↦ elim (Option-cases (fill_slot m.pool.slots id i)) [
      | inl full ↦ omega (arith, room may, fill_slot-none m.pool.slots id i full, ok.size)
      | inr (slots, fill) ↦ ground arith
    ]
    | inr (slots, e) ↦ ground arith
  ]

  unpin-PoolOk :
      (id : ℤ) (r : Bool)
      → perform (unpin_account id) m ≡ some (r, m')
      → PoolOk n (update g t (after (unpin_account id) r (g t))) m'
  unfolding perform
  unpin-PoolOk id r h =
      let s = sums (after (unpin_account id) r (g t)) in
      let out = unpin_slot-used m.pool.slots id in
      let one = sub_one (used m.pool.slots) in
      record {
        size = ground (arith, out);
        mutex = ground (arith, s.mutexes);
        empties = ground (arith, s.credits, out);
        fulls = ground (arith, s.debts, s.dues, out);
        usage = ground (arith, out, one);
      }

  pub perform-PoolOk :
      (a : Action) (r : Reply a)
      → Allowed bank a (g t)
      → perform a m ≡ some (r, m')
      → PoolOk n (update g t (after a r (g t))) m'
  unfolding perform
  perform-PoolOk lock_pool r may h = mutex-PoolOk r may h
  perform-PoolOk (place_account id i) r may h = place-PoolOk id i r may.1 h
  perform-PoolOk (unpin_account id) r may h = unpin-PoolOk id r h
  perform-PoolOk (pin_loaded id) r may h = pin-PoolOk id r h
  perform-PoolOk a r may h =
      let s = sums (after a r (g t)) in
      record {
        size = ground arith;
        mutex = ground (arith, s.mutexes);
        empties = ground (arith, s.credits);
        fulls = ground (arith, s.debts, s.dues);
        usage = ground arith;
      }
