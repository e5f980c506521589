-- ===== src/Pins/Turns.antt =====
-- The pins of all threads, kept in step with the slots by every turn.
use cmsc125_lab3_sabandal_sa.Common.{
  ℕ, ◌<◌, ◌≡◌, refl, subst, inl, inr, Bool, true, false, some, List, [], ◌∷◌, arith, update,
  update_self, update_ne, Option-cases, dec_lt, ℕ_discrete, if_pos, if_neg, if◌then◌else◌,
}
use cmsc125_lab3_sabandal_sa.CInt.{int_half}
use cmsc125_lab3_sabandal_sa.Bank.{Bank}
use cmsc125_lab3_sabandal_sa.Machine.{
  Shared, Action, place_account, Reply, perform, Prog, ret, call,
}
use cmsc125_lab3_sabandal_sa.Timer.{timer_round}
use cmsc125_lab3_sabandal_sa.Transaction.{Transaction}
use cmsc125_lab3_sabandal_sa.Discipline.{Claim}
use cmsc125_lab3_sabandal_sa.Threads.{
  System, Turn, work, tick, advance, after_round, take_turn, run,
}
use cmsc125_lab3_sabandal_sa.Threads.Safety.{Safe, perform-Rely, take_turn-Safe}
use cmsc125_lab3_sabandal_sa.Threads.Exclusion.{next-Allowed}
use cmsc125_lab3_sabandal_sa.Pins.{Pins, after_pin, RelyPin, KeepsPins, NonePinned}
use cmsc125_lab3_sabandal_sa.Pins.Moves.{PinsOk}
use cmsc125_lab3_sabandal_sa.Pins.Steps.{perform-PinsOk}

-- Each thread keeps to its pins, and all of them are in the slots.
pub record Pinned (n : ℕ) (rooms : ℕ → ℕ) (s : System) : Type 0 where
  pub pins : ℕ → Pins
  pub slots : PinsOk n pins s.memory.pool.slots
  pub keeps : (i : ℕ) → i < n → KeepsPins (rooms i) (pins i) (s.worker i) NonePinned

module _ (n : ℕ) (rooms : ℕ → ℕ) (small : n < int_half) (bank : Bank) (supply : ℕ)
    (Goal : ℕ → Transaction → Claim → Type 0) where
  rely_of :
      (s : System) (t : ℕ) (a : Action) (k : Reply a → Prog Transaction) (r : Reply a) (m' : Shared)
      → Safe n bank supply Goal s
      → t < n
      → s.worker t ≡ call a k
      → perform a s.memory ≡ some (r, m')
      → RelyPin a r
  rely_of s t (place_account id i) k r m' safe lt e h =
      perform-Rely n bank supply Goal safe.claims s.memory m' t (place_account id i) r safe.money
        safe.pool lt (next-Allowed n bank supply Goal s safe t (place_account id i) k lt e) h
  rely_of s t a k r m' safe lt e h = tt

  access-Pinned :
      (s : System) (t : ℕ) (a : Action) (k : Reply a → Prog Transaction) (r : Reply a) (m' : Shared)
      → Safe n bank supply Goal s
      → Pinned n rooms s
      → t < n
      → s.worker t ≡ call a k
      → perform a s.memory ≡ some (r, m')
      → Pinned n rooms (record s { memory = m'; worker = update s.worker t (k r) })
  access-Pinned s t a k r m' safe pinned lt e h = record {
    pins = update g t (after_pin a r (g t));
    slots = perform-PinsOk n g s.memory m' pinned.slots t lt small (rooms t) a r now.0 h;
    keeps = λ i lt_i. elim (ℕ_discrete t i) [
      | yes mine ↦ subst Goes mine (
          rw (update_self g t (after_pin a r (g t)), update_self s.worker t (k r))
            (now.1 r (rely_of s t a k r m' safe lt e h)))
      | no other ↦
          rw (update_ne g t i (after_pin a r (g t)) other, update_ne s.worker t i (k r) other)
            (pinned.keeps i lt_i)
    ];
  }
    where
      g : ℕ → Pins
      g = pinned.pins

      now : KeepsPins (rooms t) (g t) (call a k) NonePinned
      now = subst (λ p. KeepsPins (rooms t) (g t) p NonePinned) e (pinned.keeps t lt)

      Goes : ℕ → Type 0
      Goes i =
          KeepsPins (rooms i) (update g t (after_pin a r (g t)) i) (update s.worker t (k r) i)
            NonePinned

  advance-Pinned :
      (s : System) (t : ℕ) (p : Prog Transaction)
      → Safe n bank supply Goal s
      → Pinned n rooms s
      → t < n
      → s.worker t ≡ p
      → Pinned n rooms (advance s t p)
  advance-Pinned s t (ret tx) safe pinned lt e = pinned
  advance-Pinned s t (call a k) safe pinned lt e = elim (Option-cases (perform a s.memory)) [
    | inl waits ↦ rw waits pinned
    | inr ((r, m'), goes) ↦ rw goes (access-Pinned s t a k r m' safe pinned lt e goes)
  ]

  round-slots : (m : Shared) → (timer_round m).1.pool.slots ≡ m.pool.slots
  unfolding timer_round
  round-slots m = ground arith

  after_round-Pinned :
      (s : System) (alive : Bool)
      → Pinned n rooms s
      → Pinned n rooms (if alive then after_round s (timer_round s.memory) else s)
  after_round-Pinned s true pinned = record {
    pins = pinned.pins;
    slots = rw (round-slots s.memory) pinned.slots;
    keeps = pinned.keeps;
  }
  after_round-Pinned s false pinned = pinned

  take_turn-Pinned :
      (s : System) (t : Turn)
      → Safe n bank supply Goal s
      → Pinned n rooms s
      → Pinned n rooms (take_turn n s t)
  unfolding take_turn
  take_turn-Pinned s tick safe pinned = after_round-Pinned s s.timer_alive pinned
  take_turn-Pinned s (work i) safe pinned = elim (dec_lt i n) [
    | yes lt ↦ rw (if_pos _ lt) (advance-Pinned s i (s.worker i) safe pinned lt refl)
    | no out ↦ rw (if_neg _ out) pinned
  ]

  pub run-Pinned :
      (s : System) (ts : List Turn)
      → Safe n bank supply Goal s
      → Pinned n rooms s
      → Pinned n rooms (run n s ts)
  unfolding run
  run-Pinned s [] safe pinned = pinned
  run-Pinned s (t ∷ ts) safe pinned =
      run-Pinned (take_turn n s t) ts (take_turn-Safe n bank supply Goal s t safe)
        (take_turn-Pinned s t safe pinned)
