-- ===== src/Pins/System.antt =====
-- The pins of all threads in the states that a schedule reaches: each is counted in the buffer pool,
-- and none is left in the end.
use cmsc125_lab3_sabandal_sa.Common.{
  ℕ, length, ◌<◌, ◌≡◌, ◌≢◌, ◌∙◌, subst, Bool, false, List, ℤ, arith, total-eq-zero,
}
use cmsc125_lab3_sabandal_sa.CInt.{int_half}
use cmsc125_lab3_sabandal_sa.BufferPool.{buffer_pool_size, unpin_slot, absent}
use cmsc125_lab3_sabandal_sa.Machine.{Shared, unpin_account, Prog, ret, call}
use cmsc125_lab3_sabandal_sa.Transaction.{Transaction}
use cmsc125_lab3_sabandal_sa.Threads.{Turn, run, launch}
use cmsc125_lab3_sabandal_sa.Threads.Invariant.{used}
use cmsc125_lab3_sabandal_sa.Threads.Launch.{IsReady}
use cmsc125_lab3_sabandal_sa.Threads.PoolBounds.{semaphores-settle}
use cmsc125_lab3_sabandal_sa.Pins.{Pins, KeepsPins, NonePinned}
use cmsc125_lab3_sabandal_sa.Pins.Slots.{SlotsOk, Lowers, unpin_slot-Lowers, no_pins-used}
use cmsc125_lab3_sabandal_sa.Pins.Moves.{pins_below, unpin-finds}
use cmsc125_lab3_sabandal_sa.Pins.Turns.{Pinned}
use cmsc125_lab3_sabandal_sa.Pins.Start.{reachable-Pinned, named_in, AllNamed-named_in}
use cmsc125_lab3_sabandal_sa.Threads.Launch.{ops_of}

module _ (n : ℕ) (transactions : ℕ → Transaction) (m : Shared) (ready : IsReady n transactions m)
    (small : n < int_half) where
  rooms : ℕ → ℕ
  rooms i = length (named_in (ops_of (transactions i)))

  pinned : (ts : List Turn) → Pinned n rooms (run n (launch transactions m) ts)
  unfolding rooms
  pinned ts =
      reachable-Pinned n transactions m ready small rooms (λ i. named_in (ops_of (transactions i)))
        (λ i lt. omega arith) (λ i lt. AllNamed-named_in (ops_of (transactions i))) ts

  -- What a thread unloads is loaded. In every state that a schedule of fewer than 2^31 threads
  -- reaches from a ready memory, a thread whose next access takes its pin off an account finds the
  -- account in a slot in use: the search of `unload_account` never comes to the end of the slots.
  pub unpin_account-finds_slot :
      (ts : List Turn) (i : ℕ) (id : ℤ) (k : Bool → Prog Transaction)
      → i < n
      → (run n (launch transactions m) ts).worker i ≡ call (unpin_account id) k
      → unpin_slot (run n (launch transactions m) ts).memory.pool.slots id ≢ absent
  unpin_account-finds_slot ts i id k lt e missing =
      let slots = (run n (launch transactions m) ts).memory.pool.slots in
      let all = pinned ts in
      let mine = subst (λ p. KeepsPins (rooms i) (all.pins i) p NonePinned) e (all.keeps i lt) in
      let none_left : Lowers slots id absent = subst (Lowers slots id) missing (
        unpin_slot-Lowers slots id all.slots.ok
          (pins_below n all.pins slots all.slots i lt id small)) in
      omega (arith, none_left, unpin-finds n all.pins slots all.slots i lt id mine.0)

  -- An account has one slot. In every state that a schedule of fewer than 2^31 threads reaches from
  -- a ready memory, no two slots in use hold the same account, and each of them has a pin at least.
  pub pool-SlotsOk : (ts : List Turn) → SlotsOk (run n (launch transactions m) ts).memory.pool.slots
  pool-SlotsOk ts = (pinned ts).slots.ok

  -- Nothing stays loaded. When all of fewer than 2^31 threads have ended, in whatever order they
  -- ran from a ready memory, no slot is in use, `empty_slots` and `full_slots` have the values they
  -- were set up with, and `pool_lock` is free.
  pub ended-pool_empty :
      (ts : List Turn) (results : ℕ → Transaction)
      → ((i : ℕ) → i < n → (run n (launch transactions m) ts).worker i ≡ ret (results i))
      → (used (run n (launch transactions m) ts).memory.pool.slots ≡ 0)
        × ((run n (launch transactions m) ts).memory.pool.empty_slots ≡ buffer_pool_size)
        × ((run n (launch transactions m) ts).memory.pool.full_slots ≡ 0)
        × ((run n (launch transactions m) ts).memory.pool.pool_lock ≡ false)
  ended-pool_empty ts results ended =
      let (fulls, empties, free) = semaphores-settle n transactions m ready ts results ended in
      (none_used, omega (arith, none_used, empties), fulls ∙ none_used, free)
    where
      all : Pinned n rooms (run n (launch transactions m) ts)
      all = pinned ts

      none_used : used (run n (launch transactions m) ts).memory.pool.slots ≡ 0
      none_used =
          no_pins-used (run n (launch transactions m) ts).memory.pool.slots all.slots.ok (λ j.
            all.slots.counted j
            ∙ total-eq-zero (λ (p : Pins). p j) n all.pins
                (λ i lt.
                  subst (λ p. KeepsPins (rooms i) (all.pins i) p NonePinned) (ended i lt)
                    (all.keeps i lt) j))
