-- ===== src/Serial/Clock.antt =====
-- The timer of src/core/timer.c has turns until a transaction may start.
use cmsc125_lab3_sabandal_sa.Common.{
  ℕ, zero, suc, ◌≤◌, ◌<◌, ◌≡◌, refl, sym, ap, ◌∙◌, subst, inl, inr, false, List, [], ◌∷◌, ℤ, arith,
  ltb_ℤ,
}
use cmsc125_lab3_sabandal_sa.Bank.{Bank}
use cmsc125_lab3_sabandal_sa.Threads.{System, Turn, take_turn, run}
use cmsc125_lab3_sabandal_sa.Serial.{Ledger}
use cmsc125_lab3_sabandal_sa.Serial.Mirror.{Mirrors}
use cmsc125_lab3_sabandal_sa.Common.{true, not, pos, pos_part, Bool-cases, if◌then◌else◌, ◌+◌, ◌+ℤ◌}
use cmsc125_lab3_sabandal_sa.CInt.{int_half, add_int, add_int_exact}
use cmsc125_lab3_sabandal_sa.Timer.{timer_round}
use cmsc125_lab3_sabandal_sa.Threads.{tick, after_round}

-- Between two transactions: the memory mirrors the ledger at tick `clock`, and the timer runs.
pub record Idle (bank : Bank) (l : Ledger) (clock : ℕ) (s : System) : Type 0 where
  pub mirror : Mirrors bank (pos clock) [] l s.memory
  pub alive : s.timer_alive ≡ true
  pub running : s.memory.simulation_running ≡ true

-- The system after a round of the timer.
abbrev ticked : System → System
ticked s = record s {
  memory = record s.memory { global_tick = add_int s.memory.global_tick (pos 1) };
  timer_alive = true;
}

-- A schedule of rounds of the timer, after which a transaction may start.
pub record Waited (n : ℕ) (bank : Bank) (l : Ledger) (start : ℤ) (s : System) : Type 0 where
  pub turns : List Turn
  pub clock : ℕ
  pub idle : Idle bank l clock (run n s turns)
  pub started : ltb_ℤ (pos clock) start ≡ false
  pub workers : (j : ℕ) → (run n s turns).worker j ≡ s.worker j

module _ (n : ℕ) (bank : Bank) (l : Ledger) where
  tick-ticked : (s : System) (clock : ℕ) → Idle bank l clock s → take_turn n s tick ≡ ticked s
  unfolding take_turn timer_round
  tick-ticked s clock idle =
      ap (λ b. if b then after_round s (timer_round s.memory) else s) idle.alive
      ∙ ap
          (λ b. after_round s (
            if not b
            then (false, s.memory)
            else (true, record s.memory { global_tick = add_int s.memory.global_tick (pos 1) })))
          idle.running

  ticked-Idle :
      (s : System) (clock : ℕ)
      → Idle bank l clock s
      → suc clock < int_half
      → Idle bank l (suc clock) (ticked s)
  unfolding ◌+ℤ◌
  ticked-Idle s clock idle small = record {
    mirror = record {
      size = idle.mirror.size;
      opened = idle.mirror.opened;
      pool = idle.mirror.pool;
      clock =
          ap (λ t. add_int t (pos 1)) idle.mirror.clock
          ∙ add_int_exact (pos clock) (pos 1) (ground arith)
          ∙ ground arith;
      balances = idle.mirror.balances;
      output = idle.mirror.output;
    };
    alive = refl;
    running = idle.running;
  }

  -- The start tick bounds the number of rounds.
  pub wait-Waited :
      (rounds : ℕ) (start : ℤ) (s : System) (clock : ℕ)
      → Idle bank l clock s
      → pos_part start < int_half
      → pos_part start ≤ rounds + clock
      → Waited n bank l start s
  unfolding run
  wait-Waited zero start s clock idle small enough = record {
    turns = [];
    clock = clock;
    idle = idle;
    started = ground arith;
    workers = λ j. refl;
  }
  wait-Waited (suc rounds) start s clock idle small enough =
      elim (Bool-cases (ltb_ℤ (pos clock) start)) [
        | inl early ↦
            let step = tick-ticked s clock idle in
            let rest =
              wait-Waited rounds start (ticked s) (suc clock)
                (ticked-Idle s clock idle (ground arith)) small (omega arith) in
            record {
              turns = tick ∷ rest.turns;
              clock = rest.clock;
              idle =
                  subst (λ (z : System). Idle bank l rest.clock (run n z rest.turns)) (sym step)
                    rest.idle;
              started = rest.started;
              workers =
                  λ j. ap (λ (z : System). (run n z rest.turns).worker j) step ∙ rest.workers j;
            }
        | inr late ↦ record {
          turns = [];
          clock = clock;
          idle = idle;
          started = late;
          workers = λ j. refl;
        }
      ]
