-- ===== src/Threads/Conservation.antt =====
-- Money over a whole run: what the balances are at any time, and what they add up to at the end.
use cmsc125_lab3_sabandal_sa.Common.{
  ℕ, ◌+◌, ◌≤◌, ◌<◌, ◌≡◌, refl, ap, ◌∙◌, subst, some, List, [], ◌∷◌, pos, ◌≤ℤ◌, arith, length,
  get_elem?, take, total, total-add, total-same, dec_lt,
}
use cmsc125_lab3_sabandal_sa.CInt.{IsInt}
use cmsc125_lab3_sabandal_sa.Bank.{Account}
use cmsc125_lab3_sabandal_sa.Machine.{Shared, ret}
use cmsc125_lab3_sabandal_sa.Transaction.{Transaction, tx_committed}
use cmsc125_lab3_sabandal_sa.Transaction.Flow.{all_paid_in, all_taken_out}
use cmsc125_lab3_sabandal_sa.Discipline.{Claim, Keeps}
use cmsc125_lab3_sabandal_sa.Discipline.Workers.{Ends}
use cmsc125_lab3_sabandal_sa.Threads.{Turn, run, launch}
use cmsc125_lab3_sabandal_sa.Threads.Invariant.{balance_of, money_in}
use cmsc125_lab3_sabandal_sa.Threads.MoneyBounds.{balance-le-money}
use cmsc125_lab3_sabandal_sa.Threads.Safety.{Safe}
use cmsc125_lab3_sabandal_sa.Threads.Launch.{
  ops_of, supply_of, IsReady, first_claim, GoalOf, reachable-Safe,
}

take_all : {A : Type 0} (xs : List A) → take (length xs) xs ≡ xs
take_all [] = refl
take_all (x ∷ xs) = ap (x ∷◌) (take_all xs)

whole : (tx : Transaction) {d : ℕ} → d ≡ length (ops_of tx) → take d (ops_of tx) ≡ ops_of tx
whole tx e = ap (λ k. take k (ops_of tx)) e ∙ take_all (ops_of tx)

-- The sum over the threads of what their first operations bring in, or take out; `done i` says how
-- many operations of thread `i` are counted.
abbrev pub paid_total : ℕ → (ℕ → Transaction) → (ℕ → ℕ) → ℕ
paid_total n transactions done =
    total (λ (i : ℕ). all_paid_in (take (done i) (ops_of (transactions i)))) n (λ i. i)

abbrev pub taken_total : ℕ → (ℕ → Transaction) → (ℕ → ℕ) → ℕ
taken_total n transactions done =
    total (λ (i : ℕ). all_taken_out (take (done i) (ops_of (transactions i)))) n (λ i. i)

-- How many operations each thread has performed, all of them if it is committed, and that the
-- accounts hold what they held before, with what these operations brought in and without what they
-- took out.
pub record Settlement (n : ℕ) (transactions : ℕ → Transaction) (results : ℕ → Transaction)
    (before after : ℕ) : Type 0 where
  pub done : ℕ → ℕ
  pub bounded : (i : ℕ) → i < n → done i ≤ length (ops_of (transactions i))
  pub complete :
      (i : ℕ)
      → i < n
      → (results i).status ≡ tx_committed
      → done i ≡ length (ops_of (transactions i))
  pub conserved : after + taken_total n transactions done ≡ before + paid_total n transactions done

module _ (n : ℕ) (transactions : ℕ → Transaction) (m : Shared) (ready : IsReady n transactions m)
    (ts : List Turn) where
  pub safe :
      Safe n m.bank
        (supply_of n transactions m)
        (GoalOf transactions)
        (run n (launch transactions m) ts)
  safe = reachable-Safe n transactions m ready ts

  -- Balances stay in range. In every state that a schedule reaches from a ready memory, whose
  -- supply fits into an `int`, the balance of every account is zero or more and at most the supply:
  -- the money in all the accounts at the start and all the deposits to come.
  pub balance-IsInRange :
      (k : ℕ) (a : Account)
      → get_elem? (run n (launch transactions m) ts).memory.bank.accounts k ≡ some a
      → (pos 0 ≤ℤ a.balance_centavos)
        × (a.balance_centavos ≤ℤ pos (supply_of n transactions m))
        × IsInt a.balance_centavos
  balance-IsInRange k a e = ground (
    arith,
    ready.small,
    safe.money.nonneg k a.balance_centavos (ap balance_of e),
    safe.money.conserved,
    balance-le-money (run n (launch transactions m) ts).memory.bank.accounts k a.balance_centavos
        (ap balance_of e),
  )

  module _ (results : ℕ → Transaction)
      (ended : (i : ℕ)
        → i < n
        → (run n (launch transactions m) ts).worker i ≡ ret (results i)) where
    pub end_of :
        (i : ℕ)
        → i < n
        → Ends
            (transactions i).num_ops
            (transactions i).ops
            (first_claim (transactions i))
            (ops_of (transactions i))
            (results i)
            (safe.claims i)
    end_of i lt =
        subst
          (λ p. Keeps m.bank (supply_of n transactions m) (safe.claims i) p (GoalOf transactions i))
          (ended i lt) (safe.keeps i lt)

    -- How many operations thread `i` has performed, and what is known of that if there is such a
    -- thread.
    performed : (i : ℕ) → (d : ℕ) × (i < n → (lt : i < n) × (d ≡ (end_of i lt).performed))
    performed i = elim (dec_lt i n) [
      | yes lt ↦ ((end_of i lt).performed, λ _. (lt, refl))
      | no out ↦ (0, λ lt. absurd (out lt))
    ]

    purse_settled :
        (i : ℕ)
        → i < n
        → (safe.claims i).purse + all_paid_in (take (performed i).0 (ops_of (transactions i)))
          ≡ all_paid_in (ops_of (transactions i))
            + all_taken_out (take (performed i).0 (ops_of (transactions i)))
    purse_settled i lt = let (lt', e) = (performed i).1 lt in rw e (end_of i lt').moved

    purses_settled :
        total (λ (c : Claim). c.purse) n safe.claims
          + paid_total n transactions (λ i. (performed i).0)
        ≡ total (λ (tx : Transaction). all_paid_in (ops_of tx)) n transactions
          + taken_total n transactions (λ i. (performed i).0)
    purses_settled =
        total-add (λ (c : Claim). c.purse) _ (λ (tx : Transaction). all_paid_in (ops_of tx)) _ n
          safe.claims (λ i. i) transactions (λ i. i) purse_settled

    -- Conservation. When all the threads have ended, in whatever order they ran from a ready
    -- memory, each has performed some number of its operations, all of them if it committed, and
    -- the money in the accounts is what it was, and what these operations paid in, less what they
    -- took out.
    pub money_conserved :
        Settlement n transactions results
          (money_in m.bank.accounts)
          (money_in (run n (launch transactions m) ts).memory.bank.accounts)
    money_conserved = record {
      done = λ i. (performed i).0;
      bounded = λ i lt. let (lt', e) = (performed i).1 lt in rw e (end_of i lt').bounded;
      complete = λ i lt committed.
          let (lt', e) = (performed i).1 lt in e ∙ (end_of i lt').complete committed;
      conserved = omega (arith, safe.money.conserved, purses_settled);
    }

    -- The balance sheet of a clean run. When all the threads have ended, in whatever order they
    -- ran from a ready memory, and every transaction is committed, the money in the accounts and
    -- all the withdrawals are together what the accounts held at first and all the deposits.
    -- Transfers move money and change no sum.
    pub committed_conserved :
        ((i : ℕ) → i < n → (results i).status ≡ tx_committed)
        → money_in (run n (launch transactions m) ts).memory.bank.accounts
            + total (λ tx. all_taken_out (ops_of tx)) n transactions
          ≡ money_in m.bank.accounts + total (λ tx. all_paid_in (ops_of tx)) n transactions
    committed_conserved committed =
        let done = money_conserved in
        omega (
          arith,
          done.conserved,
          total-same (λ i. all_taken_out (take (done.done i) (ops_of (transactions i))))
              (λ tx. all_taken_out (ops_of tx)) n (λ i. i) transactions
              (λ i lt.
                ap all_taken_out (whole (transactions i) (done.complete i lt (committed i lt)))),
          total-same (λ i. all_paid_in (take (done.done i) (ops_of (transactions i))))
              (λ tx. all_paid_in (ops_of tx)) n (λ i. i) transactions
              (λ i lt.
                ap all_paid_in (whole (transactions i) (done.complete i lt (committed i lt)))),
        )
