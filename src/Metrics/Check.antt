-- ===== src/Metrics/Check.antt =====
-- `compute_total_balance` of src/system/metrics.c, run when no other thread is left.
use cmsc125_lab3_sabandal_sa.Common.{
  ℕ, zero, suc, ◌+◌, ◌≤◌, ◌<◌, ◌≡◌, refl, sym, ap, ◌∙◌, false, Option, none, some, List, [], ◌∷◌, ℤ,
  pos, negsuc, ◌+ℤ◌, pos_part, neg_part, arith, length, get_elem?, modify, get_elem?-modify_self,
  get_elem?-some, Option-cases, inl, inr,
}
use cmsc125_lab3_sabandal_sa.CInt.{long_half, add_long, add_long_exact}
use cmsc125_lab3_sabandal_sa.RwLock.{RwLock, open_lock}
use cmsc125_lab3_sabandal_sa.Bank.{Account}
use cmsc125_lab3_sabandal_sa.LockMgr.{read_lock_account, read_unlock_account}
use cmsc125_lab3_sabandal_sa.Machine.{Shared, rdlock, unlock, load_balance, perform, exec}
use cmsc125_lab3_sabandal_sa.Machine.Exec.{exec-call}
use cmsc125_lab3_sabandal_sa.Metrics.{total_balance_from, compute_total_balance}
use cmsc125_lab3_sabandal_sa.Threads.Invariant.{balance_of, balance_at, money_in}

value_of : Option ℤ → ℕ
value_of none = 0
value_of (some b) = pos_part b

-- The balances of `rounds` slots from slot `i` on.
partial : List Account → ℕ → ℕ → ℕ
partial accounts i zero = 0
partial accounts i (suc rounds) = value_of (balance_at accounts i) + partial accounts (suc i) rounds

partial_tail :
    (a : Account) (rest : List Account) (i rounds : ℕ)
    → partial (a ∷ rest) (suc i) rounds ≡ partial rest i rounds
unfolding partial
partial_tail a rest i zero = refl
partial_tail a rest i (suc rounds) =
    ap (value_of (balance_at rest i) +◌) (partial_tail a rest (suc i) rounds)

partial_nil : (i rounds : ℕ) → partial [] i rounds ≡ 0
unfolding partial value_of
partial_nil i zero = refl
partial_nil i (suc rounds) = omega (arith, partial_nil (suc i) rounds)

-- All the money is in the first slots, if the others hold none.
money_in-partial :
    (accounts : List Account) (rounds : ℕ)
    → ((k : ℕ) → rounds ≤ k → value_of (balance_at accounts k) ≡ 0)
    → money_in accounts ≡ partial accounts 0 rounds
unfolding partial value_of
money_in-partial [] zero h = refl
money_in-partial [] (suc rounds) h = sym (partial_nil 0 (suc rounds))
money_in-partial (a ∷ rest) zero h =
    omega (arith, h 0 (omega arith), money_in-partial rest zero (λ k le. h (suc k) (omega arith)))
money_in-partial (a ∷ rest) (suc rounds) h = omega (
  arith,
  partial_tail a rest 0 rounds,
  money_in-partial rest rounds (λ k le. h (suc k) (omega arith)),
)

modify_back :
    (accounts : List Account) (i : ℕ) (a : Account) (l : RwLock)
    → get_elem? accounts i ≡ some a
    → modify (modify accounts i (λ b. record b { lock = l })) i (λ b. record b { lock = a.lock })
      ≡ accounts
modify_back [] i a l h = refl
modify_back (b ∷ rest) zero a l h = ground arith
modify_back (b ∷ rest) (suc i) a l h = ap (b ∷◌) (modify_back rest i a l h)

-- The lock of slot `i` is held by one reader.
abbrev one_reader : RwLock
one_reader = record { writer = false; readers = 1 }

abbrev read_locked : Shared → ℕ → Shared
read_locked m i = record m {
  bank = record m.bank {
    accounts = modify m.bank.accounts i (λ b. record b { lock = one_reader });
  };
}

module _ (m : Shared) (i : ℕ) (a : Account) (entry : get_elem? m.bank.accounts i ≡ some a)
    (idle : a.lock ≡ open_lock) where
  entry-locked : get_elem? (read_locked m i).bank.accounts i ≡ some (record a { lock = one_reader })
  entry-locked =
      get_elem?-modify_self m.bank.accounts i (λ b. record b { lock = one_reader }) a entry

  rdlock-step : perform (rdlock i) m ≡ some (tt, read_locked m i)
  unfolding perform
  rdlock-step = ground (arith, entry, idle)

  load-step :
      perform (load_balance i) (read_locked m i) ≡ some (a.balance_centavos, read_locked m i)
  unfolding perform
  load-step = ground (arith, entry-locked)

  unlock-step : perform (unlock i) (read_locked m i) ≡ some (tt, m)
  unfolding perform
  unlock-step = ground (arith, entry-locked, idle, modify_back m.bank.accounts i a one_reader entry)

  round-step :
      (rounds : ℕ) (total : ℤ)
      → exec (total_balance_from i (suc rounds) total) m
        ≡ exec (total_balance_from (suc i) rounds (add_long total a.balance_centavos)) m
  unfolding total_balance_from read_lock_account read_unlock_account
  round-step rounds total =
      exec-call (rdlock i) _ m (read_locked m i) tt rdlock-step
      ∙ exec-call (load_balance i) _ (read_locked m i) (read_locked m i) a.balance_centavos
          load-step
      ∙ exec-call (unlock i) _ (read_locked m i) m tt unlock-step

-- Every lock is free.
abbrev pub AllOpen : Shared → Type 0
AllOpen m = (k : ℕ) (a : Account) → get_elem? m.bank.accounts k ≡ some a → a.lock ≡ open_lock

abbrev pub NoDebt : Shared → Type 0
NoDebt m = (k : ℕ) (b : ℤ) → balance_at m.bank.accounts k ≡ some b → neg_part b ≡ 0

add_exact :
    (t : ℕ) (b : ℤ)
    → neg_part b ≡ 0
    → t + pos_part b < long_half
    → add_long (pos t) b ≡ pos (t + pos_part b)
unfolding ◌+ℤ◌
add_exact t (pos v) low small = add_long_exact (pos t) (pos v) (ground arith) ∙ ground arith
add_exact t (negsuc v) low small = absurd (ground arith)

total_balance_from-end :
    (m : Shared) (i : ℕ) (total : ℤ) → exec (total_balance_from i 0 total) m ≡ some (total, m)
unfolding exec total_balance_from
total_balance_from-end m i total = refl

total_balance_from-sum :
    (m : Shared) (i rounds t : ℕ)
    → AllOpen m
    → NoDebt m
    → i + rounds ≤ length m.bank.accounts
    → t + partial m.bank.accounts i rounds < long_half
    → exec (total_balance_from i rounds (pos t)) m
      ≡ some (pos (t + partial m.bank.accounts i rounds), m)
unfolding partial value_of
total_balance_from-sum m i zero t opened debt fits small =
    total_balance_from-end m i (pos t) ∙ ap (λ x. some (pos x, m)) (omega arith)
total_balance_from-sum m i (suc rounds) t opened debt fits small =
    let (a, e) = get_elem?-some m.bank.accounts i (omega arith) in
    let at = ap balance_of e in
    let nonneg = debt i a.balance_centavos at in
    let more = ap value_of at in
    round-step m i a e (opened i a e) rounds (pos t)
    ∙ ap (λ z. exec (total_balance_from (suc i) rounds z) m)
        (add_exact t a.balance_centavos nonneg (omega (arith, small, more)))
    ∙ total_balance_from-sum m (suc i) rounds (t + pos_part a.balance_centavos) opened debt
        (omega (arith, fits)) (omega (arith, small, more))
    ∙ ap (λ x. some (pos x, m)) (omega (arith, more))

-- `compute_total_balance`, run alone in a memory whose locks are free, where no balance is negative
-- and no slot that the bank does not use holds money, returns the money in all the accounts, and
-- leaves the memory as it was. The sum fits into a `long`.
pub compute_total_balance-eq :
    (m : Shared)
    → AllOpen m
    → NoDebt m
    → m.bank.num_accounts ≤ length m.bank.accounts
    → ((k : ℕ) (b : ℤ)
        → m.bank.num_accounts ≤ k
        → balance_at m.bank.accounts k ≡ some b
        → b ≡ pos 0)
    → money_in m.bank.accounts < long_half
    → exec (compute_total_balance m.bank) m ≡ some (pos (money_in m.bank.accounts), m)
unfolding compute_total_balance value_of
compute_total_balance-eq m opened debt fits blank small =
    let whole = money_in-partial m.bank.accounts m.bank.num_accounts (λ k le. blank_value k le) in
    total_balance_from-sum m 0 m.bank.num_accounts 0 opened debt (omega arith)
      (omega (arith, whole))
    ∙ ap (λ x. some (pos x, m)) (omega (arith, whole))
  where
    blank_value : (k : ℕ) → m.bank.num_accounts ≤ k → value_of (balance_at m.bank.accounts k) ≡ 0
    blank_value k le = elim (Option-cases (balance_at m.bank.accounts k)) [
      | inl e ↦ rw e refl
      | inr (b, e) ↦ ground (arith, e, blank k b le e)
    ]
