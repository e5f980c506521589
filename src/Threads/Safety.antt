-- ===== src/Threads/Safety.antt =====
-- The invariant of the whole system, kept by every turn of every schedule.
use cmsc125_lab3_sabandal_sa.Common.{
  ℕ, ◌<◌, ◌≤◌, ◌≡◌, refl, ◌≢◌, ◌∙◌, Bool, true, false, some, List, [], ◌∷◌, arith, update, if_pos,
  if_neg, Option-cases, inl, inr, if◌then◌else◌, dec_lt, ℕ_discrete, update_self, update_ne,
  get_elem?, subst,
}
use cmsc125_lab3_sabandal_sa.Bank.{Bank}
use cmsc125_lab3_sabandal_sa.Machine.{
  Shared, Action, load_balance, lock_pool, place_account, Reply, perform, Prog, ret, call,
}
use cmsc125_lab3_sabandal_sa.Timer.{timer_round}
use cmsc125_lab3_sabandal_sa.Transaction.{Transaction}
use cmsc125_lab3_sabandal_sa.Discipline.{Claim, Allowed, after, Rely, Keeps}
use cmsc125_lab3_sabandal_sa.Threads.{
  System, Turn, work, tick, advance, after_round, take_turn, run,
}
use cmsc125_lab3_sabandal_sa.Threads.Invariant.{LocksOk, MoneyOk, PoolOk}
use cmsc125_lab3_sabandal_sa.Threads.LockSteps.{perform-LocksOk}
use cmsc125_lab3_sabandal_sa.Threads.MoneySteps.{perform-MoneyOk}
use cmsc125_lab3_sabandal_sa.Threads.MoneyBounds.{load-Rely}
use cmsc125_lab3_sabandal_sa.Threads.Unused.{perform-unused}
use cmsc125_lab3_sabandal_sa.Threads.PoolSteps.{perform-PoolOk, place-Rely}

-- `Goal i` is what thread `i` is to establish when it ends.
pub record Safe (n : ℕ) (bank : Bank) (supply : ℕ) (Goal : ℕ → Transaction → Claim → Type 0)
    (s : System) : Type 0 where
  pub claims : ℕ → Claim
  pub locks : LocksOk n claims s.memory.bank.accounts
  pub money : MoneyOk n supply claims s.memory.bank.accounts
  pub pool : PoolOk n claims s.memory
  pub unused :
      (k : ℕ)
      → bank.num_accounts ≤ k
      → get_elem? s.memory.bank.accounts k ≡ get_elem? bank.accounts k
  pub keeps : (i : ℕ) → i < n → Keeps bank supply (claims i) (s.worker i) (Goal i)

module _ (n : ℕ) (bank : Bank) (supply : ℕ) (Goal : ℕ → Transaction → Claim → Type 0) where
  -- The reply to an access is as the logic promises.
  pub perform-Rely :
      (g : ℕ → Claim) (m m' : Shared) (t : ℕ) (a : Action) (r : Reply a)
      → MoneyOk n supply g m.bank.accounts
      → PoolOk n g m
      → t < n
      → Allowed bank a (g t)
      → perform a m ≡ some (r, m')
      → Rely supply a (g t) r
  unfolding perform
  perform-Rely g m m' t (load_balance k) r money pool lt may h =
      load-Rely n supply g m.bank.accounts t k r money lt (ground arith)
  perform-Rely g m m' t (place_account id i) r money pool lt may h =
      place-Rely bank n g m m' pool t lt id i r may.1 h
  perform-Rely g m m' t lock_pool r money pool lt may h = tt
  perform-Rely g m m' t a r money pool lt may h = tt

  -- An access that goes through.
  access-Safe :
      (s : System) (t : ℕ) (a : Action) (k : Reply a → Prog Transaction) (r : Reply a) (m' : Shared)
      → Safe n bank supply Goal s
      → t < n
      → s.worker t ≡ call a k
      → perform a s.memory ≡ some (r, m')
      → Safe n bank supply Goal (record s { memory = m'; worker = update s.worker t (k r) })
  access-Safe s t a k r m' safe lt e h = record {
    claims = update g t (after a r (g t));
    locks = perform-LocksOk bank n g s.memory m' safe.locks t lt a r may h;
    money = perform-MoneyOk bank n supply g s.memory m' safe.money t lt a r safe.locks may h;
    pool = perform-PoolOk bank n g s.memory m' safe.pool t lt a r may h;
    unused =
        λ j beyond. perform-unused bank s.memory m' (g t) j beyond a r may h ∙ safe.unused j beyond;
    keeps = λ i lt_i. elim (ℕ_discrete t i) [
      | yes mine ↦ mine_next i lt_i mine
      | no other ↦ other_next i lt_i other
    ];
  }
    where
      g : ℕ → Claim
      g = safe.claims

      now : Keeps bank supply (g t) (call a k) (Goal t)
      now = subst (λ p. Keeps bank supply (g t) p (Goal t)) e (safe.keeps t lt)

      may : Allowed bank a (g t)
      may = now.0

      goes : Keeps bank supply (after a r (g t)) (k r) (Goal t)
      goes = now.1 r (perform-Rely g s.memory m' t a r safe.money safe.pool lt may h)

      mine_next :
          (i : ℕ)
          → i < n
          → t ≡ i
          → Keeps bank supply (update g t (after a r (g t)) i) (update s.worker t (k r) i) (Goal i)
      mine_next i lt_i mine =
          rw (← mine) (rw (update_self g t (after a r (g t)), update_self s.worker t (k r)) goes)

      other_next :
          (i : ℕ)
          → i < n
          → t ≢ i
          → Keeps bank supply (update g t (after a r (g t)) i) (update s.worker t (k r) i) (Goal i)
      other_next i lt_i other =
          rw (update_ne g t i (after a r (g t)) other, update_ne s.worker t i (k r) other)
            (safe.keeps i lt_i)

  advance-Safe :
      (s : System) (t : ℕ) (p : Prog Transaction)
      → Safe n bank supply Goal s
      → t < n
      → s.worker t ≡ p
      → Safe n bank supply Goal (advance s t p)
  advance-Safe s t (ret tx) safe lt e = safe
  advance-Safe s t (call a k) safe lt e = elim (Option-cases (perform a s.memory)) [
    | inl waits ↦ rw waits safe
    | inr ((r, m'), goes) ↦ rw goes (access-Safe s t a k r m' safe lt e goes)
  ]

  -- A memory with the same bank and the same pool.
  round-Safe :
      (s : System) (alive : Bool) (m : Shared)
      → m.bank ≡ s.memory.bank
      → m.pool ≡ s.memory.pool
      → Safe n bank supply Goal s
      → Safe n bank supply Goal (record s { memory = m; timer_alive = alive })
  round-Safe s alive m same_bank same_pool safe = record {
    claims = safe.claims;
    locks = rw same_bank safe.locks;
    money = rw same_bank safe.money;
    pool = record {
      size = rw same_pool safe.pool.size;
      mutex = rw same_pool safe.pool.mutex;
      empties = rw same_pool safe.pool.empties;
      fulls = rw same_pool safe.pool.fulls;
      usage = rw same_pool safe.pool.usage;
    };
    unused = rw same_bank safe.unused;
    keeps = safe.keeps;
  }

  timer_round-bank : (m : Shared) → (timer_round m).1.bank ≡ m.bank
  unfolding timer_round
  timer_round-bank m = ground arith

  timer_round-pool : (m : Shared) → (timer_round m).1.pool ≡ m.pool
  unfolding timer_round
  timer_round-pool m = ground arith

  after_round-Safe :
      (s : System) (alive : Bool)
      → Safe n bank supply Goal s
      → Safe n bank supply Goal (if alive then after_round s (timer_round s.memory) else s)
  after_round-Safe s true safe =
      round-Safe s (timer_round s.memory).0 (timer_round s.memory).1 (timer_round-bank s.memory)
        (timer_round-pool s.memory) safe
  after_round-Safe s false safe = safe

  pub take_turn-Safe :
      (s : System) (t : Turn)
      → Safe n bank supply Goal s
      → Safe n bank supply Goal (take_turn n s t)
  unfolding take_turn
  take_turn-Safe s tick safe = after_round-Safe s s.timer_alive safe
  take_turn-Safe s (work i) safe = elim (dec_lt i n) [
    | yes lt ↦ rw (if_pos _ lt) (advance-Safe s i (s.worker i) safe lt refl)
    | no out ↦ rw (if_neg _ out) safe
  ]

  -- Whatever the schedule.
  pub run-Safe :
      (s : System) (ts : List Turn)
      → Safe n bank supply Goal s
      → Safe n bank supply Goal (run n s ts)
  unfolding run
  run-Safe s [] safe = safe
  run-Safe s (t ∷ ts) safe = run-Safe (take_turn n s t) ts (take_turn-Safe s t safe)
