-- ===== src/Threads/MoneySteps.antt =====
-- One access of a thread that keeps to the logic keeps what the threads know of balances true and
-- the money there is the same.
use cmsc125_lab3_sabandal_sa.Common.{
  ℕ, zero, suc, ◌+◌, ◌<◌, ◌≡◌, refl, ◌≢◌, ap, sym, ◌∙◌, Option, some, List, [], ◌∷◌, ℤ, pos,
  pos_part, arith, get_elem?, modify, update, total-update, Option-cases, inl, inr, ℕ_discrete,
  get_elem?-modify_ne,
}
use cmsc125_lab3_sabandal_sa.RwLock.{RwLock, write_lock, read_lock, release}
use cmsc125_lab3_sabandal_sa.Bank.{Account, Bank}
use cmsc125_lab3_sabandal_sa.Machine.{
  Shared, Action, wrlock, rdlock, unlock, load_balance, store_balance, lock_pool, Reply, perform,
  with_lock,
}
use cmsc125_lab3_sabandal_sa.Discipline.{Claim, holds, Allowed, after, MayStore}
use cmsc125_lab3_sabandal_sa.Threads.Invariant.{
  lock_of, balance_of, balance_at, money_in, LocksOk, MoneyOk,
}
use cmsc125_lab3_sabandal_sa.Threads.Locks.{with_lock-some, exclusive}
use cmsc125_lab3_sabandal_sa.Threads.Quiet.{IsQuiet, quiet_bank, quiet_claim}

-- A change of a lock changes no balance.
locked_balance :
    (accounts : List Account) (i : ℕ) (l : RwLock) (k : ℕ)
    → balance_at (modify accounts i (λ b. record b { lock = l })) k ≡ balance_at accounts k
locked_balance [] i l k = refl
locked_balance (a ∷ rest) zero l zero = refl
locked_balance (a ∷ rest) zero l (suc k) = refl
locked_balance (a ∷ rest) (suc i) l zero = refl
locked_balance (a ∷ rest) (suc i) l (suc k) = locked_balance rest i l k

locked_money :
    (accounts : List Account) (i : ℕ) (l : RwLock)
    → money_in (modify accounts i (λ b. record b { lock = l })) ≡ money_in accounts
locked_money [] i l = refl
locked_money (a ∷ rest) zero l = refl
locked_money (a ∷ rest) (suc i) l = omega (arith, locked_money rest i l)

-- A store moves the total by the change of the one balance.
stored_money :
    (accounts : List Account) (i : ℕ) (v old : ℤ)
    → balance_at accounts i ≡ some old
    → money_in (modify accounts i (λ b. record b { balance_centavos = v })) + pos_part old
      ≡ money_in accounts + pos_part v
stored_money [] i v old e = cc
stored_money (a ∷ rest) zero v old e = ground arith
stored_money (a ∷ rest) (suc i) v old e = omega (arith, stored_money rest i v old e)

stored_balance_self :
    (accounts : List Account) (i : ℕ) (v old : ℤ)
    → balance_at accounts i ≡ some old
    → balance_at (modify accounts i (λ b. record b { balance_centavos = v })) i ≡ some v
stored_balance_self [] i v old e = cc
stored_balance_self (a ∷ rest) zero v old e = refl
stored_balance_self (a ∷ rest) (suc i) v old e = stored_balance_self rest i v old e

stored_balance_ne :
    (accounts : List Account) (i : ℕ) (v : ℤ) (k : ℕ)
    → i ≢ k
    → balance_at (modify accounts i (λ b. record b { balance_centavos = v })) k
      ≡ balance_at accounts k
stored_balance_ne accounts i v k ne = ap balance_of (get_elem?-modify_ne accounts i k _ ne)

module _ (bank : Bank) (n supply : ℕ) (g : ℕ → Claim) (m m' : Shared)
    (ok : MoneyOk n supply g m.bank.accounts) (t : ℕ) (lt : t < n) where
  -- An access that changes no balance: the thread may know less, hold more, and its purse stays.
  frame-MoneyOk :
      (c' : Claim) (accounts' : List Account)
      → ((k : ℕ) → balance_at accounts' k ≡ balance_at m.bank.accounts k)
      → money_in accounts' ≡ money_in m.bank.accounts
      → ((k u : ℕ) → c'.known k ≡ some u → balance_at m.bank.accounts k ≡ some (pos u))
      → ((k u : ℕ) → c'.known k ≡ some u → 0 < holds c' k)
      → c'.purse ≡ (g t).purse
      → MoneyOk n supply (update g t c') accounts'
  frame-MoneyOk c' accounts' same total_same fresh held purse = record {
    fresh = λ i k u lt_i e. rw (same k) (elim (ℕ_discrete t i) [
      | yes here ↦ fresh k u (ground arith)
      | no other ↦ ok.fresh i k u lt_i (ground arith)
    ]);
    held = λ i k u lt_i e. elim (ℕ_discrete t i) [
      | yes here ↦ ground (arith, held k u)
      | no other ↦ ground (arith, ok.held i k u lt_i)
    ];
    nonneg = λ k b e. ok.nonneg k b (rw (same k) at e);
    conserved =
        omega (
          arith,
          total-update (λ (c : Claim). c.purse) n g t c' lt,
          purse,
          total_same,
          ok.conserved,
        );
  }

  lock-MoneyOk :
      (k : ℕ) (f : RwLock → Option RwLock) (c' : Claim)
      → with_lock f k m ≡ some (tt, m')
      → ((j u : ℕ) → c'.known j ≡ some u → (g t).known j ≡ some u)
      → ((j u : ℕ) → c'.known j ≡ some u → 0 < holds (g t) j → 0 < holds c' j)
      → c'.purse ≡ (g t).purse
      → MoneyOk n supply (update g t c') m'.bank.accounts
  lock-MoneyOk k f c' h knows keeps purse =
      let (a, l, e, free, done) = with_lock-some f k m m' tt h in
      rw done (
        frame-MoneyOk c' (modify m.bank.accounts k (λ b. record b { lock = l }))
          (locked_balance m.bank.accounts k l) (locked_money m.bank.accounts k l)
          (λ j u q. ok.fresh t j u lt (knows j u q))
          (λ j u q. keeps j u q (ok.held t j u lt (knows j u q))) purse)

  load-MoneyOk :
      (k : ℕ) (r : ℤ)
      → 0 < holds (g t) k
      → balance_at m.bank.accounts k ≡ some r
      → m' ≡ m
      → MoneyOk n supply (update g t (after (load_balance k) r (g t))) m'.bank.accounts
  load-MoneyOk k r held e same = rw same (
      frame-MoneyOk _ m.bank.accounts (λ j. refl) refl
        (λ j u q. elim (ℕ_discrete k j) [
          | yes here ↦ rw (← here) (e ∙ ap some (read_value k r u e (ground arith)))
          | no other ↦ ok.fresh t j u lt (ground arith)
        ])
        (λ j u q. elim (ℕ_discrete k j) [
          | yes here ↦ rw (← here) held
          | no other ↦ ok.held t j u lt (ground arith)
        ])
        refl)
    where
      read_value :
          (k : ℕ) (r : ℤ) (u : ℕ)
          → balance_at m.bank.accounts k ≡ some r
          → pos_part r ≡ u
          → r ≡ pos u
      read_value k r u e p = ground (arith, ok.nonneg k r e)

  -- The store of a thread that holds the write lock: no other thread knows the balance.
  store-MoneyOk :
      (k : ℕ) (v : ℤ) (a : Account)
      → LocksOk n g m.bank.accounts
      → MayStore (g t) k v
      → get_elem? m.bank.accounts k ≡ some a
      → m'.bank.accounts ≡ modify m.bank.accounts k (λ b. record b { balance_centavos = v })
      → MoneyOk n supply (update g t (after (store_balance k v) tt (g t))) m'.bank.accounts
  store-MoneyOk k v a locks may e done = rw done (record {
    fresh = λ i j u lt_i q. elim (ℕ_discrete k j) [
      | yes here ↦ rw (← here) (fresh_here i u lt_i (rw (← here) at q))
      | no other ↦ rw (stored_balance_ne m.bank.accounts k v j other) (elim (ℕ_discrete t i) [
        | yes mine ↦ ok.fresh t j u lt (ground arith)
        | no another ↦ ok.fresh i j u lt_i (ground arith)
      ])
    ];
    held = λ i j u lt_i q. elim (ℕ_discrete k j) [
      | yes here ↦ rw (← here) (held_here i u lt_i (rw (← here) at q))
      | no other ↦ elim (ℕ_discrete t i) [
        | yes mine ↦ ground (arith, ok.held t j u lt)
        | no another ↦ ground (arith, ok.held i j u lt_i)
      ]
    ];
    nonneg = λ j b q. elim (ℕ_discrete k j) [
      | yes here ↦ ground (arith, stored_here, may.nonneg, rw (← here) at q)
      | no other ↦ ok.nonneg j b (sym (stored_balance_ne m.bank.accounts k v j other) ∙ q)
    ];
    conserved = ground (
      arith,
      total-update (λ (c : Claim). c.purse) n g t (after (store_balance k v) tt (g t)) lt,
      ok.conserved,
      stored_money m.bank.accounts k v (pos may.old) current,
      may.covered,
      may.current,
    );
  })
    where
      current : balance_at m.bank.accounts k ≡ some (pos may.old)
      current = ok.fresh t k may.old lt may.current

      stored_here :
          balance_at (modify m.bank.accounts k (λ b. record b { balance_centavos = v })) k ≡ some v
      stored_here = stored_balance_self m.bank.accounts k v (pos may.old) current

      owner : (i : ℕ) → i < n → 0 < holds (g i) k → t ≡ i
      owner i lt_i h =
          exclusive n g m.bank.accounts locks k a.lock t i (ap lock_of e) lt lt_i may.exclusive h

      fresh_here :
          (i u : ℕ)
          → i < n
          → (update g t (after (store_balance k v) tt (g t)) i).known k ≡ some u
          → balance_at (modify m.bank.accounts k (λ b. record b { balance_centavos = v })) k
            ≡ some (pos u)
      fresh_here i u lt_i q = elim (ℕ_discrete t i) [
        | yes mine ↦ stored_here ∙ ap some (ground (arith, may.nonneg))
        | no another ↦ absurd (another (owner i lt_i (ok.held i k u lt_i (ground arith))))
      ]

      held_here :
          (i u : ℕ)
          → i < n
          → (update g t (after (store_balance k v) tt (g t)) i).known k ≡ some u
          → 0 < holds (update g t (after (store_balance k v) tt (g t)) i) k
      held_here i u lt_i q = elim (ℕ_discrete t i) [
        | yes mine ↦ ground (arith, may.exclusive)
        | no another ↦ absurd (another (owner i lt_i (ok.held i k u lt_i (ground arith))))
      ]

  quiet-MoneyOk :
      (a : Action) (r : Reply a)
      → IsQuiet a
      → perform a m ≡ some (r, m')
      → MoneyOk n supply (update g t (after a r (g t))) m'.bank.accounts
  quiet-MoneyOk a r q h =
      let same = quiet_claim a r (g t) q in
      let bank_same = quiet_bank a r m m' q h in
      rw bank_same (
        frame-MoneyOk _ m.bank.accounts (λ j. refl) refl
          (λ j u e. ok.fresh t j u lt (ap (λ (f : ℕ → Option ℕ). f j) (sym same.known) ∙ e))
          (λ j u e.
            let old = ok.held t j u lt (ap (λ (f : ℕ → Option ℕ). f j) (sym same.known) ∙ e) in
            omega
              (arith, ap (λ (f : ℕ → ℕ). f j) same.writes, ap (λ (f : ℕ → ℕ). f j) same.reads, old))
          same.purse)

  -- Any access.
  pub perform-MoneyOk :
      (a : Action) (r : Reply a)
      → LocksOk n g m.bank.accounts
      → Allowed bank a (g t)
      → perform a m ≡ some (r, m')
      → MoneyOk n supply (update g t (after a r (g t))) m'.bank.accounts
  unfolding perform
  perform-MoneyOk (wrlock k) r locks may h =
      lock-MoneyOk k write_lock _ h (λ j u q. q) (λ j u q p. ground arith) refl
  perform-MoneyOk (rdlock k) r locks may h =
      lock-MoneyOk k read_lock _ h (λ j u q. q) (λ j u q p. ground arith) refl
  perform-MoneyOk (unlock k) r locks may h =
      lock-MoneyOk k (λ l. some (release l)) _ h (λ j u q. ground arith) (λ j u q p. ground arith)
        refl
  perform-MoneyOk (load_balance k) r locks may h =
      load-MoneyOk k r may.1 (ground arith) (ground arith)
  perform-MoneyOk (store_balance k v) r locks may h =
      elim (Option-cases (get_elem? m.bank.accounts k)) [
        | inl e ↦ absurd (ground arith)
        | inr (a, e) ↦ store-MoneyOk k v a locks may.1 e (ground arith)
      ]
  perform-MoneyOk lock_pool r locks may h = quiet-MoneyOk lock_pool r tt h
  perform-MoneyOk a r locks may h = quiet-MoneyOk a r tt h
