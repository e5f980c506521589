-- ===== src/Tests/Setup.antt =====
-- The bank's and the transactions' set-up on the small bank.
use cmsc125_lab3_sabandal_sa.Common.{
  ◌+◌, ◌≤◌, ◌≡◌, refl, true, false, Option, none, some, ℤ, pos, negsuc, arith, ◌↔◌, ◌⊎◌, Bool,
  codes,
}
use cmsc125_lab3_sabandal_sa.Bank.{
  Account, Bank, init_bank, scan, add_account, get_account, direct_slot,
}
use cmsc125_lab3_sabandal_sa.Bank.Lookup.{
  IsSlot, IsValid, get_account-IsSlot, get_account-eq-scan, get_account-of_IsSlot,
}
use cmsc125_lab3_sabandal_sa.Bank.Setup.{
  IsBlank, init_bank-IsValid, add_account-IsValid, add_account-refuses, Refused,
}
use cmsc125_lab3_sabandal_sa.Transaction.{
  op_deposit, op_transfer, parse_op_type, op_type_to_string, add_operation_to_transaction,
  blank_transaction, max_ops_per_tx,
}
use cmsc125_lab3_sabandal_sa.Transaction.Building.{
  IsWellFormed, Appended, add_operation_to_transaction-IsWellFormed, parse_op_type_iff,
}
use cmsc125_lab3_sabandal_sa.Tests.Fixtures.{small_bank, small_bank-IsValid, alice}

get_account-eq-scan_example : get_account small_bank (pos 2) ≡ scan small_bank.accounts 0 2 (pos 2)
get_account-eq-scan_example =
    get_account-eq-scan small_bank (pos 2) small_bank-IsValid (omega arith)

get_account-of_IsSlot_example : get_account small_bank (pos 1) ≡ some 0
get_account-of_IsSlot_example =
    get_account-of_IsSlot small_bank 0 alice small_bank-IsValid
      (record { in_use = omega arith; entry = refl })

get_account-IsSlot_example :
    (a : Account) × IsSlot small_bank 1 a × (a.account_id ≡ pos 2) × (0 + 0 ≤ 2 + 0)
unfolding get_account direct_slot
get_account-IsSlot_example = get_account-IsSlot small_bank (pos 2) 1 refl

init_bank-IsValid_example :
    IsValid (init_bank small_bank)
    × ((id : ℤ) → get_account (init_bank small_bank) id ≡ none)
    × IsBlank (init_bank small_bank)
init_bank-IsValid_example = init_bank-IsValid small_bank refl

abbrev longer_bank : Option (Bool × Bank)
longer_bank = add_account small_bank (pos 7) (pos 25)

abbrev bank_of : Option (Bool × Bank) → Bank
bank_of none = small_bank
bank_of (some (ok, b)) = b

add_account-IsValid_example :
    IsValid (bank_of longer_bank)
    × ((bank_of longer_bank).num_accounts ≡ 2 + 1)
    × (get_account (bank_of longer_bank) (pos 7) ≡ some 2)
    × ((a : Account) × IsSlot (bank_of longer_bank) 2 a
        × (a.account_id ≡ pos 7)
        × (a.balance_centavos ≡ pos 25))
unfolding add_account scan
add_account-IsValid_example =
    add_account-IsValid small_bank (pos 7) (pos 25) (bank_of longer_bank) small_bank-IsValid
      (omega arith, omega arith) refl

add_account-refuses_example :
    (ok : Bool) × (b : Bank) × (add_account small_bank (pos 2) (pos 25) ≡ some (ok, b))
    × (ok ≡ false → (b ≡ small_bank) × Refused small_bank (pos 2) (pos 25))
add_account-refuses_example =
    add_account-refuses small_bank (pos 2) (pos 25) small_bank-IsValid refl

blank_transaction-IsWellFormed : IsWellFormed blank_transaction
blank_transaction-IsWellFormed = record { size = refl; bounded = omega arith }

add_operation_to_transaction-IsWellFormed_example :
    IsWellFormed
      (add_operation_to_transaction blank_transaction op_deposit (pos 1) (pos 5) (negsuc 0)).1
    × ((((add_operation_to_transaction blank_transaction op_deposit (pos 1) (pos 5) (negsuc 0)).0
            ≡ true)
          × Appended blank_transaction
              (record {
                type = op_deposit;
                account_id = pos 1;
                amount_centavos = pos 5;
                target_account = negsuc 0;
              })
              (add_operation_to_transaction blank_transaction op_deposit
                (pos 1)
                (pos 5)
                (negsuc 0)).1)
        ⊎ (((add_operation_to_transaction blank_transaction op_deposit (pos 1) (pos 5) (negsuc 0)).0
              ≡ false)
            × ((add_operation_to_transaction blank_transaction op_deposit
                  (pos 1)
                  (pos 5)
                  (negsuc 0)).1
                ≡ blank_transaction)
            × (0 ≡ max_ops_per_tx)))
add_operation_to_transaction-IsWellFormed_example =
    add_operation_to_transaction-IsWellFormed blank_transaction op_deposit (pos 1) (pos 5)
      (negsuc 0) blank_transaction-IsWellFormed

parse_op_type_iff_example :
    (parse_op_type (codes "TRANSFER") ≡ some op_transfer)
    ↔ (codes "TRANSFER" ≡ op_type_to_string op_transfer)
parse_op_type_iff_example = parse_op_type_iff (codes "TRANSFER") op_transfer
