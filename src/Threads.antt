-- ===== src/Threads.antt =====
-- The threads that `main` of src/main.c starts: a worker for each transaction and the timer. A turn
-- is one access of one worker or one round of the timer, and a schedule is any sequence of turns.
-- The turn of a worker that waits changes nothing.
pub mod Invariant
pub mod Locks
pub mod Quiet
pub mod LockSteps
pub mod MoneySteps
pub mod MoneyBounds
pub mod PoolSteps
pub mod Unused
pub mod Safety
pub mod Launch
pub mod Startup
pub mod Exclusion
pub mod Conservation
pub mod Frame
pub mod PoolBounds
pub mod Peak
pub mod Verdict
pub mod Summary
pub mod Waiting
pub mod Progress
use cmsc125_lab3_sabandal_sa.Common.{
  ℕ, Bool, true, Option, none, some, List, [], ◌∷◌, dec_lt, ite, if◌then◌else◌, update,
}
use cmsc125_lab3_sabandal_sa.Machine.{Shared, Action, Reply, perform, Prog, ret, call}
use cmsc125_lab3_sabandal_sa.Timer.{timer_round}
use cmsc125_lab3_sabandal_sa.Transaction.{Transaction}
use cmsc125_lab3_sabandal_sa.Transaction.Execute.{execute_transaction}

-- `worker i` is what thread `i` has still to do. A number from the count of threads on is no
-- thread, and has no turn.
pub record System : Type 0 where
  pub memory : Shared
  pub worker : ℕ → Prog Transaction
  pub timer_alive : Bool

pub data Turn : Type 0 where
  work : (i : ℕ) → Turn
  tick : Turn

abbrev pub after_access :
    System → ℕ → (a : Action) → (Reply a → Prog Transaction) → Option (Reply a × Shared) → System
after_access s i a k none = s
after_access s i a k (some (r, m)) = record s { memory = m; worker = update s.worker i (k r) }

-- The next access of thread `i`.
abbrev pub advance : System → ℕ → Prog Transaction → System
advance s i (ret tx) = s
advance s i (call a k) = after_access s i a k (perform a s.memory)

abbrev pub after_round : System → Bool × Shared → System
after_round s (alive, m) = record s { memory = m; timer_alive = alive }

-- One turn, with `n` worker threads.
unfoldable pub take_turn : ℕ → System → Turn → System
take_turn n s (work i) = ite (dec_lt i n) (advance s i (s.worker i)) s
take_turn n s tick = if s.timer_alive then after_round s (timer_round s.memory) else s

unfoldable pub run : ℕ → System → List Turn → System
run n s [] = s
run n s (t ∷ ts) = run n (take_turn n s t) ts

-- The threads as created: each is to execute its transaction against the loaded bank.
unfoldable pub launch : (ℕ → Transaction) → Shared → System
launch transactions m = record {
  memory = m;
  worker = λ i. execute_transaction m.bank (transactions i);
  timer_alive = true;
}
