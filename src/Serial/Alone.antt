-- ===== src/Serial/Alone.antt =====
-- A thread that has all the turns.
use cmsc125_lab3_sabandal_sa.Common.{
  ℕ, ◌<◌, ◌≡◌, ◌≢◌, refl, sym, ap, ◌∙◌, inl, inr, none, some, Option-cases, List, [], ◌∷◌, ◌++◌,
  arith, update, update_self, update_ne, if_pos, dec_lt,
}
use cmsc125_lab3_sabandal_sa.Machine.{Shared, perform, Prog, ret, call, exec}
use cmsc125_lab3_sabandal_sa.Machine.Exec.{exec-call, exec-ret, exec-wait}
use cmsc125_lab3_sabandal_sa.Transaction.{Transaction}
use cmsc125_lab3_sabandal_sa.Threads.{System, Turn, work, after_access, advance, take_turn, run}
use cmsc125_lab3_sabandal_sa.Machine.{Action, wrlock, lock_pool, Reply}
use cmsc125_lab3_sabandal_sa.RwLock.{write_lock}
use cmsc125_lab3_sabandal_sa.Threads.Locks.{with_lock-some}

pub run-append :
    (n : ℕ) (s : System) (ts us : List Turn) → run n s (ts ++ us) ≡ run n (run n s ts) us
unfolding run
run-append n s [] us = refl
run-append n s (t ∷ ts) us = run-append n (take_turn n s t) ts us

-- No access stops the simulation.
perform-running :
    (m m' : Shared) (a : Action) (r : Reply a)
    → perform a m ≡ some (r, m')
    → m'.simulation_running ≡ m.simulation_running
unfolding perform
perform-running m m' (wrlock k) r h =
    let (a, l, e, e', same) = with_lock-some write_lock k m m' r h in
    ap (λ (x : Shared). x.simulation_running) same
perform-running m m' lock_pool r h = ground arith
perform-running m m' a r h = ground arith

-- What a thread does by turns of its own alone.
pub record Alone (n i : ℕ) (s : System) (tx : Transaction) (m : Shared) : Type 0 where
  pub turns : List Turn
  pub memory : (run n s turns).memory ≡ m
  pub ended : (run n s turns).worker i ≡ ret tx
  pub others : (j : ℕ) → i ≢ j → (run n s turns).worker j ≡ s.worker j
  pub alive : (run n s turns).timer_alive ≡ s.timer_alive
  pub running : (run n s turns).memory.simulation_running ≡ s.memory.simulation_running

module _ (n i : ℕ) (within : i < n) where
  turn-work : (s : System) → take_turn n s (work i) ≡ advance s i (s.worker i)
  unfolding take_turn
  turn-work s = if_pos (dec_lt i n) within (advance s i (s.worker i)) s

  pub run-Alone :
      (p : Prog Transaction) (s : System) (tx : Transaction) (m : Shared)
      → s.worker i ≡ p
      → exec p s.memory ≡ some (tx, m)
      → Alone n i s tx m
  unfolding run
  run-Alone (ret x) s tx m at h = record {
    turns = [];
    memory = ap (λ o. elim o [ none ↦ m | some (y, z) ↦ z ]) (sym (exec-ret x s.memory) ∙ h);
    ended =
        at
        ∙ ap (λ o. elim o [ none ↦ ret tx | some (y, z) ↦ ret y ]) (sym (exec-ret x s.memory) ∙ h);
    others = λ j ne. refl;
    alive = refl;
    running = refl;
  }
  run-Alone (call a k) s tx m at h = elim (Option-cases (perform a s.memory)) [
    | inl e ↦ absurd (cc (h, exec-wait a k s.memory e))
    | inr ((r, m'), e) ↦
        let s' : System = record s { memory = m'; worker = update s.worker i (k r) } in
        let step : take_turn n s (work i) ≡ s' =
          turn-work s ∙ ap (advance s i) at ∙ ap (after_access s i a k) e in
        let rest =
          run-Alone (k r) s' tx m (update_self s.worker i (k r))
            (sym (exec-call a k s.memory m' r e) ∙ h) in
        record {
          turns = work i ∷ rest.turns;
          memory = ap (λ (z : System). (run n z rest.turns).memory) step ∙ rest.memory;
          ended = ap (λ (z : System). (run n z rest.turns).worker i) step ∙ rest.ended;
          others = λ j ne.
              ap (λ (z : System). (run n z rest.turns).worker j) step
              ∙ rest.others j ne
              ∙ update_ne s.worker i j (k r) ne;
          alive = ap (λ (z : System). (run n z rest.turns).timer_alive) step ∙ rest.alive;
          running =
              ap (λ (z : System). (run n z rest.turns).memory.simulation_running) step
              ∙ rest.running
              ∙ perform-running s.memory m' a r e;
        }
  ]
