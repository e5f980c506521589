-- ===== src/Threads/Peak.antt =====
-- `peak_usage` of the buffer pool, which src/system/metrics.c reports: what it counts.
use cmsc125_lab3_sabandal_sa.Common.{
  ℕ, sym, ite, ◌≤◌, ◌≡◌, refl, ap, ◌∙◌, subst, Option, inl, inr, ◌⊎◌, Bool, true, false, some, none,
  List, [], ◌∷◌, ℤ, pos, ltb, ltb_ℤ, arith, Option-cases, dec_lt, if_pos, if_neg, if◌then◌else◌,
}
use cmsc125_lab3_sabandal_sa.Bank.{Bank}
use cmsc125_lab3_sabandal_sa.BufferPool.{
  BufferPool, Placed, pin_slot, fill_slot, init_buffer_pool, init_buffer_slots,
}
use cmsc125_lab3_sabandal_sa.Machine.{
  Shared, Action, pin_loaded, place_account, unpin_account, Reply, perform, Prog, ret, call,
}
use cmsc125_lab3_sabandal_sa.Timer.{timer_round}
use cmsc125_lab3_sabandal_sa.Transaction.{Transaction}
use cmsc125_lab3_sabandal_sa.Discipline.{Claim}
use cmsc125_lab3_sabandal_sa.Threads.{
  System, Turn, work, tick, advance, after_access, after_round, take_turn, run, launch,
}
use cmsc125_lab3_sabandal_sa.Threads.Invariant.{used}
use cmsc125_lab3_sabandal_sa.Threads.PoolSteps.{pin_slot-used, fill_slot-used, unpin_slot-used}
use cmsc125_lab3_sabandal_sa.Threads.Safety.{Safe, take_turn-Safe}
use cmsc125_lab3_sabandal_sa.Threads.Launch.{IsReady, supply_of, GoalOf, launch-Safe}

-- How an access changes the peak: not at all, or to the new usage if that is above it.
abbrev Peaks : BufferPool → BufferPool → Type 0
Peaks pool pool' =
    ((pool'.peak_usage ≡ pool.peak_usage) × (used pool'.slots ≤ used pool.slots))
    ⊎ ((pool'.peak_usage ≡ (
          if ltb_ℤ pool.peak_usage pool'.current_usage
          then pool'.current_usage
          else pool.peak_usage))
        × (used pool.slots ≤ used pool'.slots))

pin-Peaks :
    (m m' : Shared) (id : ℤ) (r : Bool)
    → perform (pin_loaded id) m ≡ some (r, m')
    → Peaks m.pool m'.pool
unfolding perform
pin-Peaks m m' id r h = elim (Option-cases (pin_slot m.pool.slots id)) [
  | inl e ↦ inl (ground arith)
  | inr (slots, e) ↦ inl (ground (arith, pin_slot-used m.pool.slots slots id e))
]

place-Peaks :
    (m m' : Shared) (id : ℤ) (i : ℕ) (r : Placed)
    → perform (place_account id i) m ≡ some (r, m')
    → Peaks m.pool m'.pool
unfolding perform
place-Peaks m m' id i r h = elim (Option-cases (pin_slot m.pool.slots id)) [
  | inl e ↦ elim (Option-cases (fill_slot m.pool.slots id i)) [
    | inl full ↦ inl (ground arith)
    | inr (slots, fill) ↦ inr (ground (arith, fill_slot-used m.pool.slots slots id i fill))
  ]
  | inr (slots, e) ↦ inl (ground (arith, pin_slot-used m.pool.slots slots id e))
]

unpin-Peaks :
    (m m' : Shared) (id : ℤ) (r : Bool)
    → perform (unpin_account id) m ≡ some (r, m')
    → Peaks m.pool m'.pool
unfolding perform
unpin-Peaks m m' id r h = inl (ground (arith, unpin_slot-used m.pool.slots id))

perform-Peaks :
    (m m' : Shared) (a : Action) (r : Reply a) → perform a m ≡ some (r, m') → Peaks m.pool m'.pool
unfolding perform
perform-Peaks m m' (pin_loaded id) r h = pin-Peaks m m' id r h
perform-Peaks m m' (place_account id i) r h = place-Peaks m m' id i r h
perform-Peaks m m' (unpin_account id) r h = unpin-Peaks m m' id r h
perform-Peaks m m' a r h = inl (ground arith)

abbrev larger : ℕ → ℕ → ℕ
larger a b = if ltb a b then b else a

-- The most slots that are in use at once in a run, its first and its last state included.
unfoldable pub most_used : ℕ → System → List Turn → ℕ
unfolding take_turn
most_used n s [] = used s.memory.pool.slots
most_used n s (t ∷ ts) = larger (used s.memory.pool.slots) (most_used n (take_turn n s t) ts)

most_used-first :
    (n : ℕ) (s : System) (ts : List Turn) → used s.memory.pool.slots ≤ most_used n s ts
unfolding most_used
most_used-first n s [] = omega arith
most_used-first n s (t ∷ ts) = ground arith

raise :
    (pool pool' : BufferPool) (p : ℕ)
    → Peaks pool pool'
    → pool.peak_usage ≡ pos p
    → used pool.slots ≤ p
    → pool'.current_usage ≡ pos (used pool'.slots)
    → pool'.peak_usage ≡ pos (larger p (used pool'.slots))
raise pool pool' p (inl (e, h)) peak above usage = ground arith
raise pool pool' p (inr (e, h)) peak above usage = ground arith

module _ (n : ℕ) (bank : Bank) (supply : ℕ) (Goal : ℕ → Transaction → Claim → Type 0) where
  -- The peak is `p` at least as large as the usage.
  record AtPeak (p : ℕ) (s : System) : Type 0 where
    peak : s.memory.pool.peak_usage ≡ pos p
    above : used s.memory.pool.slots ≤ p

  same-AtPeak :
      (s s' : System) (p : ℕ)
      → AtPeak p s
      → s'.memory.pool ≡ s.memory.pool
      → AtPeak (larger p (used s'.memory.pool.slots)) s'
  same-AtPeak s s' p at e = record {
    peak = ground (arith, at.peak, at.above);
    above = ground arith;
  }

  advance-AtPeak :
      (s : System) (t : ℕ) (code : Prog Transaction) (p : ℕ)
      → AtPeak p s
      → Safe n bank supply Goal (advance s t code)
      → AtPeak (larger p (used (advance s t code).memory.pool.slots)) (advance s t code)
  advance-AtPeak s t (ret tx) p at safe = same-AtPeak s s p at refl
  advance-AtPeak s t (call a k) p at safe = by_reply (perform a s.memory) refl safe
    where
      by_reply :
          (o : Option (Reply a × Shared))
          → perform a s.memory ≡ o
          → Safe n bank supply Goal (after_access s t a k o)
          → AtPeak
              (larger p (used (after_access s t a k o).memory.pool.slots))
              (after_access s t a k o)
      by_reply none e safe' = same-AtPeak s s p at refl
      by_reply (some (r, m')) e safe' = record {
        peak =
            raise s.memory.pool m'.pool p (perform-Peaks s.memory m' a r e) at.peak at.above
              safe'.pool.usage;
        above = ground arith;
      }

  round-pool : (m : Shared) → (timer_round m).1.pool ≡ m.pool
  unfolding timer_round
  round-pool m = ground arith

  tick-AtPeak :
      (s : System) (alive : Bool) (p : ℕ)
      → AtPeak p s
      → AtPeak
          (larger p
            (used (if alive then after_round s (timer_round s.memory) else s).memory.pool.slots))
          (if alive then after_round s (timer_round s.memory) else s)
  tick-AtPeak s true p at =
      same-AtPeak s (after_round s (timer_round s.memory)) p at (round-pool s.memory)
  tick-AtPeak s false p at = same-AtPeak s s p at refl

  take_turn-AtPeak :
      (s : System) (t : Turn) (p : ℕ)
      → AtPeak p s
      → Safe n bank supply Goal (take_turn n s t)
      → AtPeak (larger p (used (take_turn n s t).memory.pool.slots)) (take_turn n s t)
  unfolding take_turn
  take_turn-AtPeak s tick p at safe = tick-AtPeak s s.timer_alive p at
  take_turn-AtPeak s (work i) p at safe = elim (dec_lt i n) [
    | yes lt ↦
        let next = advance s i (s.worker i) in
        let e : ite (dec_lt i n) next s ≡ next = if_pos (dec_lt i n) lt next s in
        reached (sym e)
          (advance-AtPeak s i (s.worker i) p at (subst (Safe n bank supply Goal) e safe))
    | no out ↦
        let e : ite (dec_lt i n) (advance s i (s.worker i)) s ≡ s =
          if_neg (dec_lt i n) out (advance s i (s.worker i)) s in
        reached (sym e) (same-AtPeak s s p at refl)
  ]
    where
      reached :
          {a b : System}
          → a ≡ b
          → AtPeak (larger p (used a.memory.pool.slots)) a
          → AtPeak (larger p (used b.memory.pool.slots)) b
      reached e h = subst (λ c. AtPeak (larger p (used c.memory.pool.slots)) c) e h

  run-peak :
      (s : System) (ts : List Turn) (p : ℕ)
      → AtPeak p s
      → Safe n bank supply Goal s
      → (run n s ts).memory.pool.peak_usage ≡ pos (larger p (most_used n s ts))
  unfolding run most_used
  run-peak s [] p at safe = ground (arith, at.peak, at.above)
  run-peak s (t ∷ ts) p at safe =
      let safe' = take_turn-Safe n bank supply Goal s t safe in
      let rest =
        run-peak (take_turn n s t) ts (larger p (used (take_turn n s t).memory.pool.slots))
          (take_turn-AtPeak s t p at safe') safe' in
      rest ∙ ap pos (widest (take_turn n s t) ts)
    where
      widest :
          (s' : System) (ts : List Turn)
          → larger (larger p (used s'.memory.pool.slots)) (most_used n s' ts)
            ≡ larger p (larger (used s.memory.pool.slots) (most_used n s' ts))
      widest s' ts = ground (arith, at.above, most_used-first n s' ts)

-- The reported peak is the peak. After any schedule from a ready memory `peak_usage` is the most
-- slots that were in use at once in any state on the way.
pub peak_usage-most_used :
    (n : ℕ) (transactions : ℕ → Transaction) (m : Shared)
    → IsReady n transactions m
    → (ts : List Turn)
    → (run n (launch transactions m) ts).memory.pool.peak_usage
      ≡ pos (most_used n (launch transactions m) ts)
unfolding launch init_buffer_pool init_buffer_slots
peak_usage-most_used n transactions m ready ts =
    run-peak n m.bank (supply_of n transactions m) (GoalOf transactions) (launch transactions m) ts
      0 (record { peak = rw ready.empty_pool refl; above = rw ready.empty_pool (omega arith) })
      (launch-Safe n transactions m ready)
    ∙ ap pos (ground arith)
