-- ===== src/Transaction/Building.antt =====
-- How the parser builds a transaction, and the names of the kinds of operation.
use cmsc125_lab3_sabandal_sa.Common.{
  ℕ, zero, suc, ◌≤◌, ◌<◌, ◌≡◌, refl, sym, ap, ◌∙◌, Bool, true, false, Bool-cases, inl, inr, Option,
  some, List, [], ◌∷◌, ◌++◌, ℤ, arith, leb, length, modify, take, length-modify, codes, same_text,
  same_text-eq, ◌↔◌, ◌⊎◌, if◌then◌else◌,
}
use cmsc125_lab3_sabandal_sa.Transaction.{
  max_ops_per_tx, OpType, op_deposit, op_withdraw, op_transfer, op_balance, Operation, Transaction,
  parse_op_type, op_type_to_string, add_operation_to_transaction,
}

take-modify :
    (xs : List Operation) (n : ℕ) (o : Operation)
    → n < length xs
    → take (suc n) (modify xs n (λ x. o)) ≡ take n xs ++ o ∷ []
take-modify [] n o h = absurd (omega arith)
take-modify (x ∷ xs) zero o h = refl
take-modify (x ∷ xs) (suc n) o h = ap (x ∷◌) (take-modify xs n o (omega arith))

-- The array has its full size, and no more operations than fit in it.
pub record IsWellFormed (tx : Transaction) : Type 0 where
  pub size : length tx.ops ≡ max_ops_per_tx
  pub bounded : tx.num_ops ≤ max_ops_per_tx

abbrev new_operation : OpType → ℤ → ℤ → ℤ → Operation
new_operation type id amount target = record {
  type = type;
  account_id = id;
  amount_centavos = amount;
  target_account = target;
}

-- The operation is at the end, after those that were there.
abbrev pub Appended : Transaction → Operation → Transaction → Type 0
Appended tx op tx' = take tx'.num_ops tx'.ops ≡ take tx.num_ops tx.ops ++ op ∷ []

-- A call of `add_operation_to_transaction` on a well-formed transaction leaves it well formed. It
-- returns true, and has appended the operation, or it returns false, the transaction is as it was,
-- and it has its 256 operations.
pub add_operation_to_transaction-IsWellFormed :
    (tx : Transaction) (type : OpType) (id amount target : ℤ)
    → IsWellFormed tx
    → IsWellFormed (add_operation_to_transaction tx type id amount target).1
      × ((((add_operation_to_transaction tx type id amount target).0 ≡ true)
            × Appended tx
                (record {
                  type = type;
                  account_id = id;
                  amount_centavos = amount;
                  target_account = target;
                })
                (add_operation_to_transaction tx type id amount target).1)
          ⊎ (((add_operation_to_transaction tx type id amount target).0 ≡ false)
              × ((add_operation_to_transaction tx type id amount target).1 ≡ tx)
              × (tx.num_ops ≡ max_ops_per_tx)))
unfolding add_operation_to_transaction
add_operation_to_transaction-IsWellFormed tx type id amount target w =
    elim (Bool-cases (leb max_ops_per_tx tx.num_ops)) [
      | inl full ↦ rw full (w, inr (refl, refl, ground (arith, w.bounded)))
      | inr room ↦ rw room (
        record { size = length-modify tx.ops tx.num_ops _ ∙ w.size; bounded = ground arith },
        inl (
          refl,
          ap (λ k. take k (modify tx.ops tx.num_ops (λ o. new_operation type id amount target)))
                {y = suc tx.num_ops} (omega arith)
              ∙ take-modify tx.ops tx.num_ops (new_operation type id amount target)
                  (ground (arith, w.size)),
        ),
      )
    ]

-- A chain of tests stops here, or goes on.
stops :
    (b : Bool) (here type : OpType) (rest : Option OpType)
    → (if b then some here else rest) ≡ some type
    → ((b ≡ true) × (here ≡ type)) ⊎ (rest ≡ some type)
stops true here type rest h = inl (refl, ground arith)
stops false here type rest h = inr h

name_of :
    (text name : List ℕ) (here type : OpType)
    → op_type_to_string here ≡ name
    → (same_text text name ≡ true) × (here ≡ type)
    → text ≡ op_type_to_string type
name_of text name here type n (e, same) =
    same_text-eq text name e ∙ sym n ∙ ap op_type_to_string same

name_is :
    (text : List ℕ) (type : OpType) → parse_op_type text ≡ some type → text ≡ op_type_to_string type
unfolding parse_op_type op_type_to_string
name_is text type h = elim (stops (same_text text (codes "DEPOSIT")) op_deposit type _ h) [
  | inl e ↦ name_of text _ op_deposit type refl e
  | inr h' ↦ elim (stops (same_text text (codes "WITHDRAW")) op_withdraw type _ h') [
    | inl e ↦ name_of text _ op_withdraw type refl e
    | inr h'' ↦ elim (stops (same_text text (codes "TRANSFER")) op_transfer type _ h'') [
      | inl e ↦ name_of text _ op_transfer type refl e
      | inr h3 ↦ elim (stops (same_text text (codes "BALANCE")) op_balance type _ h3) [
        | inl e ↦ name_of text _ op_balance type refl e
        | inr never ↦ cc
      ]
    ]
  ]
]

name_reads : (type : OpType) → parse_op_type (op_type_to_string type) ≡ some type
unfolding parse_op_type op_type_to_string
name_reads op_deposit = refl
name_reads op_withdraw = refl
name_reads op_transfer = refl
name_reads op_balance = refl

-- Names of operations. `parse_op_type` reads a text as an operation exactly if the text is the
-- name that `op_type_to_string` gives that operation.
pub parse_op_type_iff :
    (text : List ℕ) (type : OpType)
    → (parse_op_type text ≡ some type) ↔ (text ≡ op_type_to_string type)
parse_op_type_iff text type = (name_is text type, λ e. ap parse_op_type e ∙ name_reads type)
