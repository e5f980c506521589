-- ===== src/Serial/Schedule.antt =====
-- The threads of `main` one after another: a serial run is one of the schedules.
use cmsc125_lab3_sabandal_sa.Common.{
  ℕ, ◌<◌, ◌≡◌, ◌≢◌, refl, sym, subst, false, Option, some, List, [], ◌∷◌, ltb_ℤ, take,
}
use cmsc125_lab3_sabandal_sa.Bank.{Bank}
use cmsc125_lab3_sabandal_sa.BufferPool.{init_buffer_slots, init_buffer_pool, zeroed_pool}
use cmsc125_lab3_sabandal_sa.Machine.{Shared, Prog, ret}
use cmsc125_lab3_sabandal_sa.Transaction.{Transaction, TxStatus}
use cmsc125_lab3_sabandal_sa.Transaction.Execute.{execute_transaction}
use cmsc125_lab3_sabandal_sa.Threads.{System, Turn, run}
use cmsc125_lab3_sabandal_sa.Threads.Launch.{IsReady}
use cmsc125_lab3_sabandal_sa.Serial.{Ledger, and_then, run_ledger}
use cmsc125_lab3_sabandal_sa.Serial.Pool.{Holds}
use cmsc125_lab3_sabandal_sa.Serial.Mirror.{Mirrors, balance_in}
use cmsc125_lab3_sabandal_sa.Serial.Refinement.{begun, finished}
use cmsc125_lab3_sabandal_sa.Common.{pos, pos_part}
use cmsc125_lab3_sabandal_sa.CInt.{int_half}
use cmsc125_lab3_sabandal_sa.Serial.Clock.{Idle}

-- The balances and the output of a memory.
abbrev pub ledger_of : Shared → Ledger
ledger_of m = record { balances = balance_in m.bank m; printed = m.output }

Holds-init : Holds [] (init_buffer_pool zeroed_pool)
unfolding init_buffer_pool init_buffer_slots
Holds-init = record {
  size = refl;
  unlocked = refl;
  in_use = refl;
  empties = refl;
  fulls = refl;
  pins = (λ h. cc, (λ h. cc, (λ h. cc, (λ h. cc, (λ h. cc, tt)))));
  held = λ id. refl;
}

-- The memory in which `main` starts the threads mirrors its own balances.
pub ready-Mirrors :
    (n : ℕ) (transactions : ℕ → Transaction) (m : Shared)
    → IsReady n transactions m
    → Mirrors m.bank m.global_tick [] (ledger_of m) m
ready-Mirrors n transactions m ready = record {
  size = refl;
  opened = ready.unlocked;
  pool = subst (Holds []) (sym ready.empty_pool) Holds-init;
  clock = refl;
  balances = λ id. refl;
  output = refl;
}

-- The transactions in the given order, on the ledger, and how each ends.
unfoldable pub serial_ledger : (ℕ → Transaction) → List ℕ → Ledger → Option (List TxStatus × Ledger)
unfolding run_ledger
serial_ledger transactions [] l = some ([], l)
serial_ledger transactions (i ∷ order) l =
    and_then
      (run_ledger (transactions i).tx_id (take (transactions i).num_ops (transactions i).ops) [] l)
      λ (status, l').
        and_then (serial_ledger transactions order l')
          λ (statuses, l''). some (status ∷ statuses, l'')

-- The order names threads only, each once at most.
abbrev pub InRange : ℕ → List ℕ → Type 0
InRange n [] = Unit
InRange n (i ∷ order) = (i < n) × InRange n order

abbrev pub IsMissing : ℕ → List ℕ → Type 0
IsMissing j [] = Unit
IsMissing j (i ∷ order) = (i ≢ j) × IsMissing j order

abbrev pub AllDifferent : List ℕ → Type 0
AllDifferent [] = Unit
AllDifferent (i ∷ order) = IsMissing i order × AllDifferent order

-- A thread has ended with the status, at a tick that its start tick had come before.
abbrev pub EndedAs : Bank → Transaction → TxStatus → Prog Transaction → Type 0
EndedAs bank tx status p =
    (at : ℕ) × (ltb_ℤ (pos at) tx.start_tick ≡ false)
    × (p ≡ ret (finished bank (pos at) (begun (pos at) tx) status))

abbrev pub EachEnded :
    Bank → (ℕ → Transaction) → List ℕ → List TxStatus → (ℕ → Prog Transaction) → Type 0
EachEnded bank transactions [] [] worker = Unit
EachEnded bank transactions (i ∷ order) (status ∷ statuses) worker =
    EndedAs bank (transactions i) status (worker i)
    × EachEnded bank transactions order statuses worker
EachEnded bank transactions _ _ worker = ⊥

-- A system in which the threads of the order have ended as the ledger says, each lock is free, and
-- the pool is empty.
pub record Served (bank : Bank) (transactions : ℕ → Transaction) (order : List ℕ)
    (statuses : List TxStatus) (l : Ledger) (s : System) : Type 0 where
  pub clock : ℕ
  pub mirror : Mirrors bank (pos clock) [] l s.memory
  pub ended : EachEnded bank transactions order statuses s.worker

module _ (n : ℕ) (bank : Bank) (transactions : ℕ → Transaction)
    (starts : (i : ℕ) → i < n → pos_part (transactions i).start_tick < int_half) where
  -- The threads of the order have not begun.
  Waiting : List ℕ → (ℕ → Prog Transaction) → Type 0
  Waiting [] worker = Unit
  Waiting (i ∷ order) worker =
      (worker i ≡ execute_transaction bank (transactions i)) × Waiting order worker

  -- A schedule that serves the order, and lets the other threads be.
  record Serving (order : List ℕ) (statuses : List TxStatus) (l : Ledger) (s : System)
      : Type 0 where
    turns : List Turn
    served : Served bank transactions order statuses l (run n s turns)
    others : (j : ℕ) → IsMissing j order → (run n s turns).worker j ≡ s.worker j

  -- One transaction, in its turn.
  record Stepped (i : ℕ) (status : TxStatus) (l : Ledger) (s : System) : Type 0 where
    turns : List Turn
    clock : ℕ
    idle : Idle bank l clock (run n s turns)
    ended : EndedAs bank (transactions i) status ((run n s turns).worker i)
    others : (j : ℕ) → i ≢ j → (run n s turns).worker j ≡ s.worker j
