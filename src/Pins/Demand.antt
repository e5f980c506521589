-- ===== src/Pins/Demand.antt =====
-- How many slots of the buffer pool threads that wait have in use, and when a thread can wait for a
-- slot without end.
use cmsc125_lab3_sabandal_sa.Common.{
  ℕ, zero, suc, ◌+◌, ◌<◌, ◌≤◌, ◌≡◌, refl, subst, inl, inr, none, List, [], ◌∷◌, ℤ, arith, length,
  ◌<ℤ◌, ==ℤ-eq, ==ℤ-refl, if◌then◌else◌, Bool-cases, total, total-zero, total-suc,
}
use cmsc125_lab3_sabandal_sa.CInt.{int_half}
use cmsc125_lab3_sabandal_sa.BufferPool.{BufferSlot, holds_account, buffer_pool_size}
use cmsc125_lab3_sabandal_sa.Machine.{
  Shared, Action, wait_empty, await_tick, Reply, perform, Prog, ret, call,
}
use cmsc125_lab3_sabandal_sa.Transaction.{Transaction}
use cmsc125_lab3_sabandal_sa.Threads.{Turn, run, launch}
use cmsc125_lab3_sabandal_sa.Threads.Invariant.{used}
use cmsc125_lab3_sabandal_sa.Threads.Launch.{IsReady, ops_of}
use cmsc125_lab3_sabandal_sa.Threads.Progress.{WaitsForRoom, deadlock_free-WaitsForRoom}
use cmsc125_lab3_sabandal_sa.Serial.{one}
use cmsc125_lab3_sabandal_sa.Serial.Pool.{occurrences}
use cmsc125_lab3_sabandal_sa.Serial.Room.{AllNamed}
use cmsc125_lab3_sabandal_sa.Serial.Slots.{holding}
use cmsc125_lab3_sabandal_sa.Pins.{Pins, MayPin, MostPins, KeepsPins, NonePinned}
use cmsc125_lab3_sabandal_sa.Pins.Slots.{pins_in, SlotsOk}
use cmsc125_lab3_sabandal_sa.Pins.Start.{reachable-Pinned}
use cmsc125_lab3_sabandal_sa.Pins.Turns.{Pinned}

-- The pins of a thread, counted over the slots in use.
weight : List BufferSlot → Pins → ℕ
weight [] p = 0
weight (s ∷ rest) p = (if s.in_use then p s.account_id else 0) + weight rest p

-- No two slots hold one account, so it counts once at most.
holding_once : (slots : List BufferSlot) (id : ℤ) → SlotsOk slots → holding slots id ≤ 1
holding_once [] id ok = omega arith
holding_once (s ∷ rest) id ok = elim (Bool-cases (holds_account s id)) [
  | inl e ↦
      let same = ==ℤ-eq s.account_id id (ground arith) in
      let others = subst (λ j. holding rest j ≡ 0) same (ok.0 (ground arith)).1 in
      rw e (omega (arith, others))
  | inr e ↦ ground (arith, holding_once rest id ok.1)
]

weight_zero : (slots : List BufferSlot) (p : Pins) → ((j : ℤ) → p j ≡ 0) → weight slots p ≡ 0
unfolding weight
weight_zero [] p h = refl
weight_zero (s ∷ rest) p h = ground (arith, h s.account_id, weight_zero rest p h)

weight_more :
    (slots : List BufferSlot) (p q : Pins) (a : ℤ)
    → ((j : ℤ) → p j ≡ one a j + q j)
    → weight slots p ≡ holding slots a + weight slots q
unfolding weight
weight_more [] p q a h = refl
weight_more (s ∷ rest) p q a h = ground (arith, h s.account_id, weight_more rest p q a h)

weight_le :
    (slots : List BufferSlot) (loaded : List ℤ) (p : Pins)
    → SlotsOk slots
    → ((j : ℤ) → p j ≡ occurrences loaded j)
    → weight slots p ≤ length loaded
weight_le slots [] p ok h = omega (arith, weight_zero slots p h)
weight_le slots (a ∷ loaded) p ok h = omega (
  arith,
  weight_more slots p (occurrences loaded) a h,
  holding_once slots a ok,
  weight_le slots loaded (occurrences loaded) ok (λ j. refl),
)

total_le :
    {A : Type 0} (w : A → ℕ) (n : ℕ) (f : ℕ → A) (rooms : ℕ → ℕ)
    → ((i : ℕ) → i < n → w (f i) ≤ rooms i)
    → total w n f ≤ total (λ r. r) n rooms
total_le w zero f rooms h = omega (arith, total-zero w f)
total_le w (suc n) f rooms h = omega (
  arith,
  total-suc w n f,
  total-suc (λ r. r) n rooms,
  h n (omega arith),
  total_le w n f rooms (λ i lt. h i (omega arith)),
)

weights-cons :
    (s : BufferSlot) (rest : List BufferSlot) (n : ℕ) (g : ℕ → Pins)
    → total (weight (s ∷ rest)) n g
      ≡ (if s.in_use then total (λ (p : Pins). p s.account_id) n g else 0) + total (weight rest) n g
unfolding weight
weights-cons s rest zero g = ground (
  arith,
  total-zero (weight (s ∷ rest)) g,
  total-zero (weight rest) g,
  total-zero (λ (p : Pins). p s.account_id) g,
)
weights-cons s rest (suc n) g = ground (
  arith,
  weights-cons s rest n g,
  total-suc (weight (s ∷ rest)) n g,
  total-suc (weight rest) n g,
  total-suc (λ (p : Pins). p s.account_id) n g,
)

-- Every slot in use is pinned.
used_le :
    (slots : List BufferSlot) (n : ℕ) (g : ℕ → Pins)
    → SlotsOk slots
    → ((j : ℤ) → pins_in slots j ≤ total (λ (p : Pins). p j) n g)
    → used slots ≤ total (weight slots) n g
used_le [] n g ok h = omega arith
used_le (s ∷ rest) n g ok h =
    let below = used_le rest n g ok.1 (λ j. omega (arith, h j)) in
    elim (Bool-cases s.in_use) [
      | inl e ↦
          ground (
            arith,
            below,
            weights-cons s rest n g,
            h s.account_id,
            (ok.0 e).0,
            ==ℤ-refl s.account_id,
          )
      | inr e ↦ ground (arith, below, weights-cons s rest n g)
    ]

-- Threads with few pins each have few slots in use.
used_below :
    (slots : List BufferSlot) (n : ℕ) (g : ℕ → Pins) (rooms : ℕ → ℕ)
    → SlotsOk slots
    → ((j : ℤ) → pins_in slots j ≡ total (λ (p : Pins). p j) n g)
    → ((i : ℕ) → i < n → MostPins (rooms i) (g i))
    → used slots ≤ total (λ r. r) n rooms
used_below slots n g rooms ok counted most = omega (
  arith,
  used_le slots n g ok (λ j. omega (arith, counted j)),
  total_le (weight slots) n g rooms (λ i lt.
      let (loaded, few, held) = most i lt in omega (arith, weight_le slots loaded (g i) ok held)),
)

-- What a thread waits for if there is always room.
abbrev pub WaitsForClock : Action → Shared → Type 0
WaitsForClock (await_tick t) m = m.global_tick <ℤ t
WaitsForClock _ m = ⊥

module _ (n : ℕ) (transactions : ℕ → Transaction) (m : Shared) (ready : IsReady n transactions m)
    (small : n < int_half) (rooms : ℕ → ℕ) (needed : ℕ → List ℤ)
    (few : (i : ℕ) → i < n → length (needed i) ≤ suc (rooms i))
    (names : (i : ℕ) → i < n → AllNamed (needed i) (ops_of (transactions i))) (ts : List Turn)
    (stuck : (i : ℕ) (a : Action) (k : Reply a → Prog Transaction)
      → i < n
      → (run n (launch transactions m) ts).worker i ≡ call a k
      → perform a (run n (launch transactions m) ts).memory ≡ none) where
  all : Pinned n rooms (run n (launch transactions m) ts)
  all = reachable-Pinned n transactions m ready small rooms needed few names ts

  few_pins : (i : ℕ) → i < n → MostPins (rooms i) (all.pins i)
  few_pins i lt = by_code ((run n (launch transactions m) ts).worker i) refl
    where
      by_code :
          (p : Prog Transaction)
          → (run n (launch transactions m) ts).worker i ≡ p
          → MostPins (rooms i) (all.pins i)
      by_code (ret tx) e = (
        [],
        omega arith,
        subst (λ p. KeepsPins (rooms i) (all.pins i) p NonePinned) e (all.keeps i lt),
      )
      by_code (call a k) e =
          by_reason a (deadlock_free-WaitsForRoom n transactions m ready ts stuck i a k lt e)
            (subst (λ p. KeepsPins (rooms i) (all.pins i) p NonePinned) e (all.keeps i lt)).0
        where
          by_reason :
              (a : Action)
              → WaitsForRoom a (run n (launch transactions m) ts).memory
              → MayPin (rooms i) a (all.pins i)
              → MostPins (rooms i) (all.pins i)
          by_reason wait_empty w may = may
          by_reason (await_tick t) w may = may
          by_reason a w may = absurd w

  some_room :
      total (λ r. r) n rooms < buffer_pool_size
      → used (run n (launch transactions m) ts).memory.pool.slots < buffer_pool_size
  some_room below = omega (
    arith,
    used_below (run n (launch transactions m) ts).memory.pool.slots n all.pins rooms all.slots.ok
        all.slots.counted few_pins,
  )

  clock_only :
      (a : Action)
      → total (λ r. r) n rooms < buffer_pool_size
      → WaitsForRoom a (run n (launch transactions m) ts).memory
      → WaitsForClock a (run n (launch transactions m) ts).memory
  clock_only wait_empty below w = omega (arith, w, some_room below)
  clock_only (await_tick t) below w = w
  clock_only a below w = absurd w

-- No deadlock if the demand is small. Let fewer than 2^31 threads start from a ready memory, let
-- thread `i` name accounts of the list `needed i` only, of at most `rooms i` accounts and one
-- more, and let all the `rooms` be fewer than five together. In every state that a schedule
-- reaches, if every thread that has an access left waits with it, then each such thread waits for
-- a tick that the clock has not reached.
pub deadlock_free-WaitsForClock :
    (n : ℕ) (transactions : ℕ → Transaction) (m : Shared)
    → IsReady n transactions m
    → n < int_half
    → (rooms : ℕ → ℕ) (needed : ℕ → List ℤ) → ((i : ℕ) → i < n → length (needed i) ≤ suc (rooms i))
    → ((i : ℕ) → i < n → AllNamed (needed i) (ops_of (transactions i)))
    → total (λ r. r) n rooms < buffer_pool_size
    → (ts : List Turn)
    → ((i : ℕ) (a : Action) (k : Reply a → Prog Transaction)
        → i < n
        → (run n (launch transactions m) ts).worker i ≡ call a k
        → perform a (run n (launch transactions m) ts).memory ≡ none)
    → (i : ℕ) (a : Action) (k : Reply a → Prog Transaction) → i < n
    → (run n (launch transactions m) ts).worker i ≡ call a k
    → WaitsForClock a (run n (launch transactions m) ts).memory
deadlock_free-WaitsForClock n transactions m ready small rooms needed few names below ts stuck i a k
      lt e =
    clock_only n transactions m ready small rooms needed few names ts stuck a below
      (deadlock_free-WaitsForRoom n transactions m ready ts stuck i a k lt e)
