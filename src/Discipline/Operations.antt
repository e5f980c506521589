-- ===== src/Discipline/Operations.antt =====
-- Each case of the `switch` in `execute_transaction` of src/core/transaction.c, once its accounts are
-- loaded, keeps to the logic.
use cmsc125_lab3_sabandal_sa.Common.{
  ℕ, ◌≤◌, ◌<◌, refl, Bool, true, false, inl, inr, List, ℤ, pos, pos_part, arith, ltb_ℤ,
  if◌then◌else◌, Bool-cases,
}
use cmsc125_lab3_sabandal_sa.CInt.{int_half}
use cmsc125_lab3_sabandal_sa.Bank.{Bank}
use cmsc125_lab3_sabandal_sa.Bank.Lookup.{IsValid}
use cmsc125_lab3_sabandal_sa.Bank.Money.{deposit, withdraw, transfer, get_balance}
use cmsc125_lab3_sabandal_sa.Machine.{print_balance, ret, access, ◌>>◌}
use cmsc125_lab3_sabandal_sa.Transaction.{Operation}
use cmsc125_lab3_sabandal_sa.Transaction.Execute.{
  perform_deposit, perform_withdraw, perform_transfer, perform_balance,
}
use cmsc125_lab3_sabandal_sa.Discipline.{Claim, Keeps, Keeps-bind}
use cmsc125_lab3_sabandal_sa.Discipline.Locks.{Settled}
use cmsc125_lab3_sabandal_sa.Discipline.Accounts.{deposit-Keeps, withdraw-Keeps, get_balance-Keeps}
use cmsc125_lab3_sabandal_sa.Discipline.Transfer.{transfer-Keeps}
use cmsc125_lab3_sabandal_sa.Discipline.Loading.{AllFound, Loads, Performs, still, nothing}

module _ (bank : Bank) (v : IsValid bank) (supply : ℕ) (small : supply < int_half) where
  pub deposit_step-Keeps :
      (c d : Claim) (op : Operation) (r : Bool × List ℤ)
      → pos_part op.amount_centavos ≤ c.purse
      → Loads bank c op.account_id r d
      → Keeps bank supply d
          (perform_deposit bank op r)
          (Performs bank c (pos_part op.amount_centavos) 0)
  unfolding perform_deposit
  deposit_step-Keeps c d op (false, loaded) fits h = record {
    settled = h.settled;
    all_found = h.all_found;
  }
  deposit_step-Keeps c d op (true, loaded) fits h =
      let (i, e) = h.found refl in
      Keeps-bind bank supply {B = Bool × List ℤ} (λ _. Settled d (pos_part op.amount_centavos) 0)
        (Performs bank c (pos_part op.amount_centavos) 0) d
        (deposit bank op.account_id op.amount_centavos) (λ _. ret (true, loaded))
        (deposit-Keeps bank supply small d op.account_id i op.amount_centavos v e h.settled.free
          (omega (arith, h.settled.balance)))
        (λ _ e' g. record {
          settled = record { free = g.free; balance = omega (arith, g.balance, h.settled.balance) };
          all_found = h.all_found;
        })

  pub withdraw_step-Keeps :
      (c d : Claim) (op : Operation) (r : Bool × List ℤ)
      → Loads bank c op.account_id r d
      → Keeps bank supply d
          (perform_withdraw bank op r)
          (Performs bank c 0 (pos_part op.amount_centavos))
  unfolding perform_withdraw
  withdraw_step-Keeps c d op (false, loaded) h = record {
    settled = h.settled;
    all_found = h.all_found;
  }
  withdraw_step-Keeps c d op (true, loaded) h =
      Keeps-bind bank supply {B = Bool × List ℤ}
        (λ done. Settled d 0 (if done then pos_part op.amount_centavos else 0))
        (Performs bank c 0 (pos_part op.amount_centavos)) d
        (withdraw bank op.account_id op.amount_centavos) (λ done. ret (done, loaded))
        (withdraw-Keeps bank supply small d op.account_id op.amount_centavos v h.settled.free)
        (λ done e g. record {
          settled = record {
            free = g.free;
            balance = ground (arith, g.balance, h.settled.balance);
          };
          all_found = h.all_found;
        })

  pub transfer_step-Keeps :
      (c d : Claim) (op : Operation) (r : Bool × List ℤ)
      → Performs bank c 0 0 r d
      → Keeps bank supply d (perform_transfer bank op r) (Performs bank c 0 0)
  unfolding perform_transfer
  transfer_step-Keeps c d op (false, loaded) h = record {
    settled = h.settled;
    all_found = h.all_found;
  }
  transfer_step-Keeps c d op (true, loaded) h =
      Keeps-bind bank supply {B = Bool × List ℤ} (λ _. Settled d 0 0) (Performs bank c 0 0) d
        (transfer bank op.account_id op.target_account op.amount_centavos)
        (λ done. ret (done, loaded))
        (transfer-Keeps bank supply small d op.account_id op.target_account op.amount_centavos v
          h.settled.free)
        (λ done e g. record {
          settled = nothing c e done (still c d e 0 0 h.settled g);
          all_found = h.all_found;
        })

  -- What is done with the balance that was read.
  print_step-Keeps :
      (c d : Claim) (tx_id : ℤ) (op : Operation) (loaded : List ℤ) (balance : ℤ)
      → Settled c 0 0 d
      → AllFound bank loaded
      → Keeps bank supply d
          (if ltb_ℤ balance (pos 0)
            then ret (false, loaded)
            else (access (
                  print_balance
                    (record { tx_id = tx_id; account_id = op.account_id; balance = balance }))
                >> ret (true, loaded)))
          (Performs bank c 0 0)
  print_step-Keeps c d tx_id op loaded balance h all = elim (Bool-cases (ltb_ℤ balance (pos 0))) [
    | inl e ↦ rw e (record { settled = h; all_found = all })
    | inr e ↦ rw e (tt, λ _ _. record { settled = h; all_found = all })
  ]

  pub balance_step-Keeps :
      (c d : Claim) (tx_id : ℤ) (op : Operation) (r : Bool × List ℤ)
      → Loads bank c op.account_id r d
      → Keeps bank supply d (perform_balance bank tx_id op r) (Performs bank c 0 0)
  unfolding perform_balance
  balance_step-Keeps c d tx_id op (false, loaded) h = record {
    settled = h.settled;
    all_found = h.all_found;
  }
  balance_step-Keeps c d tx_id op (true, loaded) h =
      Keeps-bind bank supply {B = Bool × List ℤ} (λ _. Settled d 0 0) (Performs bank c 0 0) d
        (get_balance bank op.account_id) _
        (get_balance-Keeps bank supply small d op.account_id v h.settled.free)
        (λ balance e g.
          print_step-Keeps c e tx_id op loaded balance (still c d e 0 0 h.settled g) h.all_found)
