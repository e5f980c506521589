-- ===== src/Parser/Files/Reading.antt =====
-- What a single line of a trace says, and what `parse_trace_line` of src/system/parser.c does with
-- it.
use cmsc125_lab3_sabandal_sa.Common.{
  ℕ, ◌≡◌, ◌≢◌, sym, refl, ap, ◌∙◌, subst, Bool, true, false, not, inl, inr, Bool-cases,
  Option-cases, Option, none, some, List, [], ◌∷◌, ◌++◌, ℤ, pos, negsuc, ◌==ℤ◌, ==ℤ-eq, ==ℤ-refl,
  if◌then◌else◌, take, leb,
}
use cmsc125_lab3_sabandal_sa.Transaction.{
  max_ops_per_tx, OpType, op_deposit, op_withdraw, op_transfer, op_balance, Operation, Transaction,
  add_operation_to_transaction, parse_op_type,
}
use cmsc125_lab3_sabandal_sa.Transaction.Building.{
  IsWellFormed, add_operation_to_transaction-IsWellFormed,
}
use cmsc125_lab3_sabandal_sa.Parser.{trim_newline, should_skip_line}
use cmsc125_lab3_sabandal_sa.Parser.Scan.{◌>>=◌, scan_int}
use cmsc125_lab3_sabandal_sa.Parser.Files.{
  Prefix, scan_prefix, added, parse_operation, parse_trace_line,
}
use cmsc125_lab3_sabandal_sa.Parser.Files.Accounts.{bind-some}

-- The operation with these arguments.
unfoldable pub read_operation : OpType → List ℕ → Option Operation
unfolding scan_int
read_operation op_transfer arguments = do
  (account_id, rest) ← scan_int arguments
  (target_account, rest') ← scan_int rest
  (amount, rest'') ← scan_int rest'
  some (record {
    type = op_transfer;
    account_id = account_id;
    amount_centavos = amount;
    target_account = target_account;
  })
read_operation op_balance arguments = do
  (account_id, rest) ← scan_int arguments
  some (record {
    type = op_balance;
    account_id = account_id;
    amount_centavos = pos 0;
    target_account = negsuc 0;
  })
read_operation type arguments = do
  (account_id, rest) ← scan_int arguments
  (amount, rest') ← scan_int rest
  some (record {
    type = type;
    account_id = account_id;
    amount_centavos = amount;
    target_account = negsuc 0;
  })

abbrev list_of : Option Operation → List Operation
list_of none = []
list_of (some op) = op ∷ []

abbrev operation_in : Option OpType → List ℕ → Option Operation
operation_in none arguments = none
operation_in (some type) arguments = read_operation type arguments

abbrev operations_of_prefix : ℤ → Option Prefix → List Operation
operations_of_prefix id none = []
operations_of_prefix id (some p) =
    if p.tx_id ==ℤ id then list_of (operation_in (parse_op_type p.op_str) p.arguments) else []

-- The operation that a line has for the transaction, if it has one.
abbrev pub line_operations : ℤ → List ℕ → List Operation
line_operations id line =
    if should_skip_line line then [] else operations_of_prefix id (scan_prefix line)

-- The operations that a file has for the transaction, in the order of the lines.
unfoldable pub operations_for : ℤ → List (List ℕ) → List Operation
operations_for id [] = []
operations_for id (line ∷ lines) = line_operations id (trim_newline line) ++ operations_for id lines

abbrev append_to : Transaction → Operation → Option Transaction
append_to tx op =
    added
      (add_operation_to_transaction tx op.type op.account_id op.amount_centavos op.target_account)

parse_operation-read :
    (tx : Transaction) (type : OpType) (arguments : List ℕ)
    → parse_operation tx type arguments ≡ (read_operation type arguments >>= append_to tx)
unfolding parse_operation read_operation
parse_operation-read tx op_deposit arguments = elim (Option-cases (scan_int arguments)) [
  | inl e ↦ rw e refl
  | inr ((a, rest), e) ↦
      rw e (elim (Option-cases (scan_int rest)) [ inl e' ↦ rw e' refl | inr (b, e') ↦ rw e' refl ])
]
parse_operation-read tx op_withdraw arguments = elim (Option-cases (scan_int arguments)) [
  | inl e ↦ rw e refl
  | inr ((a, rest), e) ↦
      rw e (elim (Option-cases (scan_int rest)) [ inl e' ↦ rw e' refl | inr (b, e') ↦ rw e' refl ])
]
parse_operation-read tx op_transfer arguments = elim (Option-cases (scan_int arguments)) [
  | inl e ↦ rw e refl
  | inr ((a, rest), e) ↦ rw e (elim (Option-cases (scan_int rest)) [
    | inl e' ↦ rw e' refl
    | inr ((b, rest'), e') ↦ rw e' (elim (Option-cases (scan_int rest')) [
      | inl e'' ↦ rw e'' refl
      | inr (c, e'') ↦ rw e'' refl
    ])
  ])
]
parse_operation-read tx op_balance arguments = elim (Option-cases (scan_int arguments)) [
  | inl e ↦ rw e refl
  | inr (a, e) ↦ rw e refl
]

-- The operation comes after those of the transaction, and its identifier stays.
pub record Grown (tx : Transaction) (ops : List Operation) (tx' : Transaction) : Type 0 where
  pub same : tx'.tx_id ≡ tx.tx_id
  pub more : take tx'.num_ops tx'.ops ≡ take tx.num_ops tx.ops ++ ops

added-some :
    (r : Bool × Transaction) (tx' : Transaction) → added r ≡ some tx' → (r.0 ≡ true) × (r.1 ≡ tx')
added-some (false, tx) tx' h = cc
added-some (true, tx) tx' h = (refl, ap (λ o. elim o [ none ↦ tx | some x ↦ x ]) h)

add-same_id :
    (tx : Transaction) (op : Operation)
    → (add_operation_to_transaction tx op.type op.account_id op.amount_centavos
        op.target_account).1.tx_id
      ≡ tx.tx_id
unfolding add_operation_to_transaction
add-same_id tx op = elim (Bool-cases (leb max_ops_per_tx tx.num_ops)) [
  | inl e ↦ rw e refl
  | inr e ↦ rw e refl
]

append_to-Grown :
    (tx tx' : Transaction) (op : Operation)
    → IsWellFormed tx
    → append_to tx op ≡ some tx'
    → Grown tx (op ∷ []) tx'
append_to-Grown tx tx' op w h =
    let r =
      add_operation_to_transaction tx op.type op.account_id op.amount_centavos op.target_account in
    let (done, same) = added-some r tx' h in
    subst (Grown tx (op ∷ [])) same (record {
      same = add-same_id tx op;
      more =
          elim (add_operation_to_transaction-IsWellFormed tx op.type op.account_id
            op.amount_centavos op.target_account w).1 [
              | inl (ok, appended) ↦ appended
              | inr (failed, same_tx, at_limit) ↦ cc
            ];
    })

-- A test that fails has a condition that is false.
else-both :
    {A : Type 0} (b : Bool) (o : Option A) (a : A)
    → (if b then none else o) ≡ some a
    → (b ≡ false) × (o ≡ some a)
else-both true o a h = cc
else-both false o a h = (refl, h)

true_of_refuted : (b : Bool) → not b ≡ false → b ≡ true
true_of_refuted true h = refl
true_of_refuted false h = cc

-- What is known when a line has been parsed.
pub parse_trace_line-Grown :
    (line : List ℕ) (tx tx' : Transaction) (p : Prefix)
    → should_skip_line line ≡ false
    → scan_prefix line ≡ some p
    → IsWellFormed tx
    → parse_trace_line line tx ≡ some tx'
    → (tx.tx_id ≡ p.tx_id) × Grown tx (line_operations tx.tx_id line) tx'
unfolding parse_trace_line
parse_trace_line-Grown line tx tx' p read prefix w h =
    let h1 = rw prefix at h in
    let (same, h2) = else-both (not (tx.tx_id ==ℤ p.tx_id)) _ tx' h1 in
    let (_, h3) = else-both (not (tx.start_tick ==ℤ p.start_tick)) _ tx' h2 in
    let (type, e, h4) = bind-some (parse_op_type p.op_str) _ tx' h3 in
    let (op, e', h5) =
      bind-some (read_operation type p.arguments) (append_to tx) tx'
        (sym (parse_operation-read tx type p.arguments) ∙ h4) in
    let id_same = ==ℤ-eq tx.tx_id p.tx_id (true_of_refuted (tx.tx_id ==ℤ p.tx_id) same) in
    let hit : (p.tx_id ==ℤ tx.tx_id) ≡ true = ap (p.tx_id ==ℤ◌) id_same ∙ ==ℤ-refl p.tx_id in
    (id_same, rw (read, prefix, hit, e, e') (append_to-Grown tx tx' op w h5))

-- And the line has nothing for another transaction.
pub line_operations-other :
    (line : List ℕ) (p : Prefix) (id : ℤ)
    → scan_prefix line ≡ some p
    → p.tx_id ≢ id
    → line_operations id line ≡ []
line_operations-other line p id prefix ne = elim (Bool-cases (should_skip_line line)) [
  | inl e ↦ rw e refl
  | inr e ↦ elim (Bool-cases (p.tx_id ==ℤ id)) [
    | inl hit ↦ absurd (ne (==ℤ-eq p.tx_id id hit))
    | inr miss ↦ rw (e, prefix, miss) refl
  ]
]
