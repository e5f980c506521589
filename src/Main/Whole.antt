-- ===== src/Main/Whole.antt =====
-- `main` of src/main.c as a whole: what its run comes to.
use cmsc125_lab3_sabandal_sa.Common.{
  ℕ, zero, suc, ◌<◌, ◌≡◌, ◌==◌, refl, sym, ap, ◌∙◌, subst, true, false, none, some, List, pos,
  arith, ℕ_discrete, if◌then◌else◌,
}
use cmsc125_lab3_sabandal_sa.CInt.{int_half}
use cmsc125_lab3_sabandal_sa.Bank.{Bank, zeroed_bank, init_bank, init_account_locks}
use cmsc125_lab3_sabandal_sa.Machine.{Shared, Prog, ret, call, exec}
use cmsc125_lab3_sabandal_sa.Timer.{init_timer}
use cmsc125_lab3_sabandal_sa.Transaction.{Transaction, tx_committed}
use cmsc125_lab3_sabandal_sa.Parser.{Trace}
use cmsc125_lab3_sabandal_sa.Parser.Files.{parse_accounts_file}
use cmsc125_lab3_sabandal_sa.Parser.Files.Accounts.{bind-some}
use cmsc125_lab3_sabandal_sa.Metrics.{compute_total_balance}
use cmsc125_lab3_sabandal_sa.Flow.Sums.{Positive, gather}
use cmsc125_lab3_sabandal_sa.Threads.{System, Turn, run, launch}
use cmsc125_lab3_sabandal_sa.Threads.Invariant.{money_in}
use cmsc125_lab3_sabandal_sa.Threads.Launch.{ops_of, supply_of, IsReady}
use cmsc125_lab3_sabandal_sa.Threads.Startup.{started, started-IsReady}
use cmsc125_lab3_sabandal_sa.Threads.Verdict.{ready-total_in, passes_in}
use cmsc125_lab3_sabandal_sa.Main.{Config, parse_args}
use cmsc125_lab3_sabandal_sa.Main.Program.{
  Files, Reports, exit_success, not_ended, load_bank, load_trace, loaded_memory, start_simulation,
  transaction_at, has_ended, all_joined, outcome_of, stop_timer, with_check, report, simulate,
  with_total, with_bank, with_config, main,
}

start_simulation-eq :
    (bank : Bank) → start_simulation (loaded_memory (init_account_locks bank)) ≡ started bank
unfolding start_simulation init_timer
start_simulation-eq bank = refl

-- The bank comes from an accounts file that was read without error.
load_bank-some :
    (files : Files) (config : Config) (bank : Bank)
    → load_bank files config ≡ some bank
    → (lines : List (List ℕ)) × (read : Bank) × (parse_accounts_file lines (init_bank zeroed_bank)
        ≡ some read)
      × (bank ≡ init_account_locks read)
unfolding load_bank
load_bank-some files config bank h =
    let (name, _, h') = bind-some config.accounts_file _ bank h in
    let (lines, _, h'') = bind-some (files name) _ bank h' in
    let (read, e, last) =
      bind-some (parse_accounts_file lines (init_bank zeroed_bank)) _ bank h'' in
    (lines, read, e, sym (ap (λ o. elim o [ none ↦ bank | some b ↦ b ]) last))

ended-ret : (p : Prog Transaction) → has_ended p ≡ true → p ≡ ret (outcome_of p)
ended-ret (ret tx) h = refl
ended-ret (call a k) h = cc

all_joined-ret :
    (handle : ℕ → ℕ) (n : ℕ) (worker : ℕ → Prog Transaction)
    → ((i : ℕ) → i < n → (handle i == 0) ≡ false)
    → all_joined handle n worker ≡ true
    → (i : ℕ) → i < n
    → worker i ≡ ret (outcome_of (worker i))
all_joined-ret handle zero worker all h i lt = absurd (omega arith)
all_joined-ret handle (suc n) worker all h i lt = elim (ℕ_discrete i n) [
  | yes e ↦
      let here = all n (omega arith) in
      subst (λ j. worker j ≡ ret (outcome_of (worker j))) (sym e)
        (ended-ret (worker n) (ground arith))
  | no ne ↦
      all_joined-ret handle n worker (λ j below. all j (omega arith)) (ground arith) i
        (omega (arith, ne))
]

-- What the schedule has to bring about: every thread has ended, and committed.
pub record AllCommitted (handle : ℕ → ℕ) (n : ℕ) (s : System) : Type 0 where
  pub joined : all_joined handle n s.worker ≡ true
  pub committed : (i : ℕ) → i < n → (outcome_of (s.worker i)).status ≡ tx_committed

module _ (trace : Trace) (handle : ℕ → ℕ) (ts : List Turn) (m : Shared)
    (ready : IsReady trace.num_transactions (transaction_at handle trace) m)
    (started_all : (i : ℕ) → i < trace.num_transactions → (handle i == 0) ≡ false)
    (positive : (i : ℕ)
      → i < trace.num_transactions
      → Positive (ops_of (transaction_at handle trace i)))
    (all : AllCommitted handle trace.num_transactions
      (run trace.num_transactions (launch (transaction_at handle trace) m) ts)) where
  ending : System
  ending = run trace.num_transactions (launch (transaction_at handle trace) m) ts

  results : ℕ → Transaction
  results i = outcome_of (ending.worker i)

  simulate-passes :
      (reports : Reports) × (simulate trace handle ts (pos (money_in m.bank.accounts)) m
        ≡ exit_success reports)
      × (reports.balance_check.pass ≡ true)
  unfolding simulate report ending results
  simulate-passes =
      let (check, e, pass) =
        passes_in trace.num_transactions (transaction_at handle trace) m ready ts results
          (all_joined-ret handle trace.num_transactions ending.worker started_all all.joined)
          (λ i lt. (all.committed i lt, positive i lt)) (stop_timer ending.memory) in
      (
        _,
        ap
              (λ b.
                if b
                then report (gather trace.num_transactions results) (pos trace.num_transactions)
                    (pos (money_in m.bank.accounts)) (stop_timer ending.memory)
                else not_ended)
              all.joined
            ∙ ap
                (with_check (gather trace.num_transactions results) (pos trace.num_transactions)
                  (stop_timer ending.memory))
                e,
        pass,
      )

loaded-IsReady :
    (lines : List (List ℕ)) (read bank : Bank) (n : ℕ) (transactions : ℕ → Transaction)
    → parse_accounts_file lines (init_bank zeroed_bank) ≡ some read
    → bank ≡ init_account_locks read
    → supply_of n transactions (start_simulation (loaded_memory bank)) < int_half
    → IsReady n transactions (start_simulation (loaded_memory bank))
loaded-IsReady lines read bank n transactions e same =
    subst (λ m. supply_of n transactions m < int_half → IsReady n transactions m)
      (sym (start_simulation-eq read) ∙ ap (λ b. start_simulation (loaded_memory b)) (sym same))
      (started-IsReady lines read n transactions e)

-- A run of the program ends well. If the command line is accepted, both files are read without
-- error, the balances and all deposits fit into an `int` together, no operation has a negative
-- amount, and no handle of a thread is zero; and if the schedule ends every thread with its
-- transaction committed: then `main` exits with success, and the balance check that it reports is
-- PASS.
pub main-passes :
    (args : List (List ℕ)) (files : Files) (handle : ℕ → ℕ) (ts : List Turn) (config : Config)
    (bank : Bank) (trace : Trace)
    → parse_args args ≡ some config
    → load_bank files config ≡ some bank
    → load_trace files config ≡ some trace
    → supply_of trace.num_transactions
        (transaction_at handle trace)
        (start_simulation (loaded_memory bank))
      < int_half
    → ((i : ℕ) → i < trace.num_transactions → (handle i == 0) ≡ false)
    → ((i : ℕ) → i < trace.num_transactions → Positive (ops_of (transaction_at handle trace i)))
    → AllCommitted handle trace.num_transactions (
        run trace.num_transactions
          (launch (transaction_at handle trace) (start_simulation (loaded_memory bank)))
          ts)
    → (reports : Reports) × (main args files handle ts ≡ exit_success reports)
      × (reports.balance_check.pass ≡ true)
unfolding main start_simulation init_timer
main-passes args files handle ts config bank trace accepted loaded traced small started_all positive
      all =
    let (lines, read, e, same) = load_bank-some files config bank loaded in
    let m : Shared = start_simulation (loaded_memory bank) in
    let ready : IsReady trace.num_transactions (transaction_at handle trace) m =
      loaded-IsReady lines read bank trace.num_transactions (transaction_at handle trace) e same
        small in
    let (reports, ends, pass) = simulate-passes trace handle ts m ready started_all positive all in
    (
      reports,
      ap (with_config files handle ts) accepted
          ∙ ap (with_bank (load_trace files config) handle ts) loaded
          ∙ ap
              (λ t. with_total t handle ts (exec (compute_total_balance bank) (loaded_memory bank)))
              traced
          ∙ ap (with_total (some trace) handle ts) (
              ready-total_in trace.num_transactions (transaction_at handle trace) m ready
                (loaded_memory bank))
          ∙ ends,
      pass,
    )
