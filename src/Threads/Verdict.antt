-- ===== src/Threads/Verdict.antt =====
-- What `verify_balance_conservation` of src/system/metrics.c says of a whole run.
use cmsc125_lab3_sabandal_sa.Common.{
  ℕ, ◌+◌, ◌≤◌, ◌<◌, ◌≡◌, sym, ap, ap₂, ◌∙◌, subst, true, Option, none, some, List, ℤ, pos, neg_part,
  sub_ℕ, ◌+ℤ◌, ◌==ℤ◌, arith, length, get_elem?, take, total, total-eq-zero, total-same,
}
use cmsc125_lab3_sabandal_sa.CInt.{int_half, long_half, add_long, add_long_exact}
use cmsc125_lab3_sabandal_sa.RwLock.{RwLock, open_lock}
use cmsc125_lab3_sabandal_sa.Bank.{Bank}
use cmsc125_lab3_sabandal_sa.Machine.{Shared, ret, exec}
use cmsc125_lab3_sabandal_sa.Machine.Exec.{exec-bind}
use cmsc125_lab3_sabandal_sa.Transaction.{Transaction, tx_committed}
use cmsc125_lab3_sabandal_sa.Transaction.Flow.{all_paid_in, all_taken_out}
use cmsc125_lab3_sabandal_sa.Metrics.{
  BalanceCheck, compute_total_balance, verify_balance_conservation,
}
use cmsc125_lab3_sabandal_sa.Metrics.Check.{AllOpen, NoDebt, compute_total_balance-eq}
use cmsc125_lab3_sabandal_sa.Flow.{compute_committed_external_flow}
use cmsc125_lab3_sabandal_sa.Flow.Sums.{
  AllClean, IsClean-of_Positive, paid_by, taken_by, Positive, gather, paid_of, taken_of,
  paid-gather, taken-gather, clean-gather, compute_committed_external_flow-eq,
}
use cmsc125_lab3_sabandal_sa.Discipline.{Claim, IsFree}
use cmsc125_lab3_sabandal_sa.Threads.{Turn, run, launch}
use cmsc125_lab3_sabandal_sa.Threads.Invariant.{
  bit, lock_of, balance_of, balance_of-some, balance_at, money_in,
}
use cmsc125_lab3_sabandal_sa.Threads.Frame.{length-of_ids, run-SameAccountSet, SameAccountSet}
use cmsc125_lab3_sabandal_sa.Threads.Launch.{ops_of, IsReady}
use cmsc125_lab3_sabandal_sa.Threads.Conservation.{safe, end_of, committed_conserved}

-- A sum of totals that stays in range.
expected_lem :
    (before paid taken after : ℕ)
    → after + taken ≡ before + paid
    → before < int_half
    → paid < int_half
    → taken < long_half
    → add_long (pos before) (sub_ℕ paid taken) ≡ pos after
unfolding ◌+ℤ◌
expected_lem before paid taken after h small small' small'' =
    add_long_exact (pos before) (sub_ℕ paid taken) (ground arith) ∙ ground arith

verify-eq :
    (bank : Bank) (initial flow final : ℤ) (m : Shared)
    → exec (compute_total_balance bank) m ≡ some (final, m)
    → exec (verify_balance_conservation bank initial flow) m
      ≡ some (
        record {
          initial_total = initial;
          net_external_flow = flow;
          expected_total = add_long initial flow;
          final_total = final;
          pass = add_long initial flow ==ℤ final;
        },
        m,
      )
unfolding verify_balance_conservation exec
verify-eq bank initial flow final m h = exec-bind (compute_total_balance bank) _ m m final h

test_of_eq : (a b : ℤ) → a ≡ b → (a ==ℤ b) ≡ true
test_of_eq a b h = ground arith

value-inj :
    (a b : ℤ) (m m' : Shared) → ◌≡◌ {A = Option (ℤ × Shared)} (some (a, m)) (some (b, m')) → a ≡ b
value-inj a b m m' h = ap (λ (o : Option (ℤ × Shared)). elim o [ none ↦ a | some (z, s) ↦ z ]) h

open_of : (l : RwLock) → bit l.writer ≡ 0 → l.readers ≡ 0 → l ≡ open_lock
open_of l w r = ground arith

-- The total needs nothing of the memory but the bank.
pub ready-total_in :
    (n : ℕ) (transactions : ℕ → Transaction) (m : Shared)
    → IsReady n transactions m
    → (other : Shared)
    → exec (compute_total_balance m.bank) (record other { bank = m.bank })
      ≡ some (pos (money_in m.bank.accounts), record other { bank = m.bank })
ready-total_in n transactions m ready other =
    compute_total_balance-eq (record other { bank = m.bank }) ready.unlocked
      (λ k b h.
        let (a, e, same) = balance_of-some (get_elem? m.bank.accounts k) b h in
        ap neg_part (sym same) ∙ ready.nonneg k a e)
      (omega (arith, ready.valid.size, ready.valid.bounded))
      (λ k b le h.
        let (a, e, same) = balance_of-some (get_elem? m.bank.accounts k) b h in
        sym same ∙ ready.blank k a le e)
      (omega (arith, ready.small))

-- What `main` computes before the threads start: the money in all the accounts of a ready memory.
pub ready-total :
    (n : ℕ) (transactions : ℕ → Transaction) (m : Shared)
    → IsReady n transactions m
    → exec (compute_total_balance m.bank) m ≡ some (pos (money_in m.bank.accounts), m)
ready-total n transactions m ready = ready-total_in n transactions m ready m

module _ (n : ℕ) (transactions : ℕ → Transaction) (m : Shared) (ready : IsReady n transactions m)
    (ts : List Turn) (results : ℕ → Transaction)
    (ended : (i : ℕ) → i < n → (run n (launch transactions m) ts).worker i ≡ ret (results i)) where
  no_claims :
      (k : ℕ) (w : Claim → ℕ)
      → ((c : Claim) → IsFree c → w c ≡ 0)
      → total w n (safe n transactions m ready ts).claims ≡ 0
  no_claims k w h =
      total-eq-zero w n (safe n transactions m ready ts).claims
        (λ i lt. h _ (end_of n transactions m ready ts results ended i lt).free)

  -- In the end every lock is free, whatever the outcomes.
  pub ended-AllOpen : AllOpen (run n (launch transactions m) ts).memory
  ended-AllOpen k a e =
      open_of a.lock
        (sym ((safe n transactions m ready ts).locks.writers k a.lock (ap lock_of e))
          ∙ no_claims k (λ c. c.writes k) (λ c f. omega (arith, f.no_locks k)))
        (sym ((safe n transactions m ready ts).locks.readers k a.lock (ap lock_of e))
          ∙ no_claims k (λ c. c.reads k) (λ c f. omega (arith, f.no_locks k)))

  -- Nor is a balance negative, or money in a slot that the bank does not use.
  ended-NoDebt : NoDebt (run n (launch transactions m) ts).memory
  ended-NoDebt = (safe n transactions m ready ts).money.nonneg

  same_accounts : SameAccountSet m.bank (run n (launch transactions m) ts).memory.bank
  unfolding launch
  same_accounts = run-SameAccountSet n (launch transactions m) ts

  same_count : (run n (launch transactions m) ts).memory.bank.num_accounts ≡ m.bank.num_accounts
  same_count = same_accounts.count

  fits :
      (run n (launch transactions m) ts).memory.bank.num_accounts
      ≤ length (run n (launch transactions m) ts).memory.bank.accounts
  fits = omega (
    arith,
    same_count,
    length-of_ids (run n (launch transactions m) ts).memory.bank.accounts m.bank.accounts
        same_accounts.ids,
    ready.valid.size,
    ready.valid.bounded,
  )

  ended-blank :
      (k : ℕ) (b : ℤ)
      → (run n (launch transactions m) ts).memory.bank.num_accounts ≤ k
      → balance_at (run n (launch transactions m) ts).memory.bank.accounts k ≡ some b
      → b ≡ pos 0
  ended-blank k b le h =
      let low : m.bank.num_accounts ≤ k = omega (arith, le, same_count) in
      let (a, e, same) =
        balance_of-some (get_elem? m.bank.accounts k) b
          (ap balance_of (sym ((safe n transactions m ready ts).unused k low)) ∙ h) in
      sym same ∙ ready.blank k a low e

  abbrev pub with_end : Shared → Shared
  with_end other = record other { bank = (run n (launch transactions m) ts).memory.bank }

  final_total_lem :
      (other : Shared)
      → exec (compute_total_balance (run n (launch transactions m) ts).memory.bank) (with_end other)
        ≡ some
            (pos (money_in (run n (launch transactions m) ts).memory.bank.accounts), with_end other)
  final_total_lem other =
      compute_total_balance-eq (with_end other) ended-AllOpen ended-NoDebt fits ended-blank
        (omega (arith, (safe n transactions m ready ts).money.conserved, ready.small))

  module _
      (clean : (i : ℕ)
        → i < n
        → ((results i).status ≡ tx_committed) × Positive (ops_of (transactions i))) where
    same_ops : (i : ℕ) → i < n → take (results i).num_ops (results i).ops ≡ ops_of (transactions i)
    same_ops i lt =
        let e = end_of n transactions m ready ts results ended i lt in
        ap₂ take e.same_count e.same_ops

    all_clean : AllClean (gather n results)
    all_clean = clean-gather n results (λ i lt.
        IsClean-of_Positive (results i).status (results i) (rw (same_ops i lt) (clean i lt).1))

    paid : paid_of (gather n results) ≡ total (λ tx. all_paid_in (ops_of tx)) n transactions
    paid =
        paid-gather n results
        ∙ total-same (λ tx. paid_by tx.status tx) (λ tx. all_paid_in (ops_of tx)) n results
            transactions
            (λ i lt.
              ap (λ status. paid_by status (results i)) (clean i lt).0
              ∙ ap all_paid_in (same_ops i lt))

    taken : taken_of (gather n results) ≡ total (λ tx. all_taken_out (ops_of tx)) n transactions
    taken =
        taken-gather n results
        ∙ total-same (λ tx. taken_by tx.status tx) (λ tx. all_taken_out (ops_of tx)) n results
            transactions
            (λ i lt.
              ap (λ status. taken_by status (results i)) (clean i lt).0
              ∙ ap all_taken_out (same_ops i lt))

    balanced :
        money_in (run n (launch transactions m) ts).memory.bank.accounts
          + taken_of (gather n results)
        ≡ money_in m.bank.accounts + paid_of (gather n results)
    balanced = omega (
      arith,
      paid,
      taken,
      committed_conserved n transactions m ready ts results ended (λ i lt. (clean i lt).0),
    )

    flow_lem :
        compute_committed_external_flow (gather n results) (pos n)
        ≡ sub_ℕ (paid_of (gather n results)) (taken_of (gather n results))
    flow_lem =
        compute_committed_external_flow-eq n results all_clean (omega (arith, paid, ready.small))
          (omega (arith, paid, balanced, ready.small))

    verdict :
        add_long
          (pos (money_in m.bank.accounts))
          (compute_committed_external_flow (gather n results) (pos n))
        ≡ pos (money_in (run n (launch transactions m) ts).memory.bank.accounts)
    verdict =
        ap (add_long (pos (money_in m.bank.accounts))) flow_lem
        ∙ expected_lem (money_in m.bank.accounts) (paid_of (gather n results))
            (taken_of (gather n results))
            (money_in (run n (launch transactions m) ts).memory.bank.accounts) balanced
            (omega (arith, ready.small)) (omega (arith, paid, ready.small))
            (omega (arith, paid, balanced, ready.small))

    -- The check, from the total in the beginning, in a memory with the bank as the threads leave it.
    pub passes_in :
        (other : Shared)
        → (check : BalanceCheck) × (exec
              (verify_balance_conservation
                (run n (launch transactions m) ts).memory.bank
                (pos (money_in m.bank.accounts))
                (compute_committed_external_flow (gather n results) (pos n)))
              (with_end other)
            ≡ some (check, with_end other))
          × (check.pass ≡ true)
    passes_in other = (
      _,
      verify-eq (run n (launch transactions m) ts).memory.bank (pos (money_in m.bank.accounts)) _ _
          (with_end other) (final_total_lem other),
      test_of_eq _ _ verdict,
    )

    -- The balance check passes. When all the threads have ended, in whatever order they ran from a
    -- ready memory, every transaction is committed, and no operation has a negative amount: the
    -- total that `main` computes before the threads start, the committed flow, and the total in
    -- the end make `verify_balance_conservation` report PASS, and it leaves the memory as it was.
    pub verify_balance_conservation-passes :
        (initial : ℤ)
        → exec (compute_total_balance m.bank) m ≡ some (initial, m)
        → (check : BalanceCheck) × (exec
              (verify_balance_conservation
                (run n (launch transactions m) ts).memory.bank
                initial
                (compute_committed_external_flow (gather n results) (pos n)))
              (run n (launch transactions m) ts).memory
            ≡ some (check, (run n (launch transactions m) ts).memory))
          × (check.pass ≡ true)
    verify_balance_conservation-passes initial h =
        let same : initial ≡ pos (money_in m.bank.accounts) =
          value-inj initial (pos (money_in m.bank.accounts)) m m
            (sym h ∙ ready-total n transactions m ready) in
        subst
          (λ z.
            (check : BalanceCheck) × (exec
                (verify_balance_conservation (run n (launch transactions m) ts).memory.bank z
                  (compute_committed_external_flow (gather n results) (pos n)))
                (run n (launch transactions m) ts).memory
              ≡ some (check, (run n (launch transactions m) ts).memory))
            × (check.pass ≡ true))
          (sym same) (passes_in (run n (launch transactions m) ts).memory)
