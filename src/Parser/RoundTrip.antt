-- ===== src/Parser/RoundTrip.antt =====
-- Lines of a trace in the format of the README, and what src/system/parser.c reads of them.
use cmsc125_lab3_sabandal_sa.Common.{
  ℕ, ◌≤◌, ◌<◌, ◌≡◌, refl, sym, ap, ◌∙◌, false, not, Option, none, some, List, [], ◌∷◌, ◌++◌, ℤ, pos,
  negsuc, arith, ltb_ℤ, length, ◌==ℤ◌, ==ℤ-refl, if◌then◌else◌,
}
use cmsc125_lab3_sabandal_sa.CInt.{int_half}
use cmsc125_lab3_sabandal_sa.Transaction.{
  OpType, op_deposit, op_withdraw, op_transfer, op_balance, Transaction, parse_op_type,
  op_type_to_string, add_operation_to_transaction,
}
use cmsc125_lab3_sabandal_sa.Bank.{Bank, add_account}
use cmsc125_lab3_sabandal_sa.Parser.Scan.{◌>>=◌, max_word, scan_word, scan_int}
use cmsc125_lab3_sabandal_sa.Parser.Decimal.{decimal, digits_of-AllDigits, scan_int-decimal}
use cmsc125_lab3_sabandal_sa.Parser.Words.{
  NoSpaces, scan_word-all, scan_word-space, digits-NoSpaces, digits_of-le, scan_int-last,
  scan_int-next, scan_int-final, bind-eq,
}
use cmsc125_lab3_sabandal_sa.Parser.Files.{
  accepted, checked_account, parse_account, Prefix, label_id, scan_prefix, added, parse_operation,
  parse_trace_line,
}

label_id-decimal : (n : ℕ) → n < int_half → label_id (84 ∷ decimal n) ≡ some (pos n)
label_id-decimal n small = ap (λ o. o >>= λ r. some r.0) (scan_int-last n small)

-- `T<tx_id> <start_tick> <op_str> <arguments>`
abbrev pub prefix_text : ℕ → ℕ → List ℕ → List ℕ → List ℕ
prefix_text tx_id start_tick op_str arguments =
    84 ∷ (decimal tx_id ++ 32 ∷ (decimal start_tick ++ 32 ∷ (op_str ++ 32 ∷ arguments)))

-- The steps of `scan_prefix` after each conversion.
abbrev with_op : List ℕ → ℤ → List ℕ × List ℕ → Option Prefix
with_op label tick (op_str, arguments) = label_id label >>= λ tx_id.
    some (record { tx_id = tx_id; start_tick = tick; op_str = op_str; arguments = arguments })

abbrev with_tick : List ℕ → ℤ × List ℕ → Option Prefix
with_tick label (tick, rest) = scan_word rest >>= with_op label tick

abbrev with_label : List ℕ × List ℕ → Option Prefix
with_label (label, rest) = scan_int rest >>= with_tick label

scan_prefix-steps : (line : List ℕ) → scan_prefix line ≡ (scan_word line >>= with_label)
unfolding scan_prefix
scan_prefix-steps line = refl

scan_prefix-text :
    (tx_id start_tick c : ℕ) (op_str arguments : List ℕ)
    → tx_id < int_half
    → start_tick < int_half
    → NoSpaces (c ∷ op_str)
    → length (c ∷ op_str) ≤ max_word
    → scan_prefix (prefix_text tx_id start_tick (c ∷ op_str) arguments)
      ≡ some (record {
        tx_id = pos tx_id;
        start_tick = pos start_tick;
        op_str = c ∷ op_str;
        arguments = 32 ∷ arguments;
      })
scan_prefix-text tx_id start_tick c op_str arguments small small' plain short =
    let label = 84 ∷ decimal tx_id in
    let from_op = (c ∷ op_str) ++ 32 ∷ arguments in
    scan_prefix-steps (prefix_text tx_id start_tick (c ∷ op_str) arguments)
    ∙ bind-eq (scan_word (prefix_text tx_id start_tick (c ∷ op_str) arguments)) with_label
        (label, 32 ∷ (decimal start_tick ++ 32 ∷ from_op))
        (scan_word-all 84 (decimal tx_id) (decimal start_tick ++ 32 ∷ from_op)
          (refl, digits-NoSpaces (decimal tx_id) (digits_of-AllDigits 10 tx_id))
          (omega (arith, digits_of-le 10 tx_id)))
    ∙ bind-eq (scan_int (32 ∷ (decimal start_tick ++ 32 ∷ from_op))) (with_tick label)
        (pos start_tick, 32 ∷ from_op) (scan_int-next start_tick from_op small')
    ∙ bind-eq (scan_word (32 ∷ from_op)) (with_op label (pos start_tick))
        (c ∷ op_str, 32 ∷ arguments)
        (scan_word-space from_op ∙ scan_word-all c op_str arguments plain short)
    ∙ bind-eq (label_id label) _ (pos tx_id) (label_id-decimal tx_id small)

-- The arguments of an operation as they are printed.
abbrev pub arguments_text : OpType → ℕ → ℕ → ℕ → List ℕ
arguments_text op_transfer account amount target =
    decimal account ++ 32 ∷ (decimal target ++ 32 ∷ decimal amount)
arguments_text op_balance account amount target = decimal account
arguments_text _ account amount target = decimal account ++ 32 ∷ decimal amount

-- What the parser makes of them.
abbrev pub with_arguments : Transaction → OpType → ℕ → ℕ → ℕ → Option Transaction
with_arguments tx op_transfer account amount target =
    added (add_operation_to_transaction tx op_transfer (pos account) (pos amount) (pos target))
with_arguments tx op_balance account amount target =
    added (add_operation_to_transaction tx op_balance (pos account) (pos 0) (negsuc 0))
with_arguments tx type account amount target =
    added (add_operation_to_transaction tx type (pos account) (pos amount) (negsuc 0))

parse_operation-text :
    (tx : Transaction) (type : OpType) (account amount target : ℕ)
    → account < int_half
    → amount < int_half
    → target < int_half
    → parse_operation tx type (32 ∷ arguments_text type account amount target)
      ≡ with_arguments tx type account amount target
unfolding parse_operation
parse_operation-text tx op_deposit account amount target a b c =
    rw (scan_int-next account (decimal amount) a, scan_int-final amount b) refl
parse_operation-text tx op_withdraw account amount target a b c =
    rw (scan_int-next account (decimal amount) a, scan_int-final amount b) refl
parse_operation-text tx op_transfer account amount target a b c =
    rw
      (
        scan_int-next account (decimal target ++ 32 ∷ decimal amount) a,
        scan_int-next target (decimal amount) c,
        scan_int-final amount b,
      )
      refl
parse_operation-text tx op_balance account amount target a b c = rw (scan_int-final account a) refl

scan_prefix-op :
    (tx_id start_tick : ℕ) (type : OpType) (arguments : List ℕ)
    → tx_id < int_half
    → start_tick < int_half
    → scan_prefix (prefix_text tx_id start_tick (op_type_to_string type) arguments)
      ≡ some (record {
        tx_id = pos tx_id;
        start_tick = pos start_tick;
        op_str = op_type_to_string type;
        arguments = 32 ∷ arguments;
      })
unfolding op_type_to_string
scan_prefix-op tx_id start_tick op_deposit arguments a b =
    scan_prefix-text tx_id start_tick 68 _ arguments a b
      (refl, (refl, (refl, (refl, (refl, (refl, (refl, tt))))))) (omega arith)
scan_prefix-op tx_id start_tick op_withdraw arguments a b =
    scan_prefix-text tx_id start_tick 87 _ arguments a b
      (refl, (refl, (refl, (refl, (refl, (refl, (refl, (refl, tt)))))))) (omega arith)
scan_prefix-op tx_id start_tick op_transfer arguments a b =
    scan_prefix-text tx_id start_tick 84 _ arguments a b
      (refl, (refl, (refl, (refl, (refl, (refl, (refl, (refl, tt)))))))) (omega arith)
scan_prefix-op tx_id start_tick op_balance arguments a b =
    scan_prefix-text tx_id start_tick 66 _ arguments a b
      (refl, (refl, (refl, (refl, (refl, (refl, (refl, tt))))))) (omega arith)

parse_op_type-op_type_to_string :
    (type : OpType) → parse_op_type (op_type_to_string type) ≡ some type
unfolding parse_op_type op_type_to_string
parse_op_type-op_type_to_string op_deposit = refl
parse_op_type-op_type_to_string op_withdraw = refl
parse_op_type-op_type_to_string op_transfer = refl
parse_op_type-op_type_to_string op_balance = refl

abbrev with_prefix : Transaction → Prefix → Option Transaction
with_prefix tx p =
    if not (tx.tx_id ==ℤ p.tx_id)
    then none
    else if not (tx.start_tick ==ℤ p.start_tick)
    then none
    else (parse_op_type p.op_str >>= λ type. parse_operation tx type p.arguments)

parse_trace_line-steps :
    (line : List ℕ) (tx : Transaction)
    → parse_trace_line line tx ≡ (scan_prefix line >>= with_prefix tx)
unfolding parse_trace_line
parse_trace_line-steps line tx = refl

with_prefix-same :
    (tx : Transaction) (p : Prefix)
    → tx.tx_id ≡ p.tx_id
    → tx.start_tick ≡ p.start_tick
    → with_prefix tx p ≡ (parse_op_type p.op_str >>= λ type. parse_operation tx type p.arguments)
with_prefix-same tx p same same' =
    let go_on = parse_op_type p.op_str >>= λ type. parse_operation tx type p.arguments in
    ap (λ b. if not b then none else if not (tx.start_tick ==ℤ p.start_tick) then none else go_on)
      (ap (tx.tx_id ==ℤ◌) (sym same) ∙ ==ℤ-refl tx.tx_id)
    ∙ ap (λ b. if not b then none else go_on)
        (ap (tx.start_tick ==ℤ◌) (sym same') ∙ ==ℤ-refl tx.start_tick)

-- Every line in the documented format is read as it is meant. A line `T<id> <tick> <operation>
-- <arguments>` with single spaces, its numbers in decimal and below 2^31, is parsed for a
-- transaction with that identifier and start tick as `add_operation_to_transaction` of exactly
-- that operation: account, amount, and target for TRANSFER; account and amount for DEPOSIT and
-- WITHDRAW; account for BALANCE.
pub parse_trace_line-text :
    (tx : Transaction) (type : OpType) (tx_id start_tick account amount target : ℕ)
    → tx.tx_id ≡ pos tx_id
    → tx.start_tick ≡ pos start_tick
    → tx_id < int_half
    → start_tick < int_half
    → account < int_half
    → amount < int_half
    → target < int_half
    → parse_trace_line
        (prefix_text tx_id start_tick
          (op_type_to_string type)
          (arguments_text type account amount target))
        tx
      ≡ with_arguments tx type account amount target
parse_trace_line-text tx type tx_id start_tick account amount target same same' a b c d e =
    let arguments = arguments_text type account amount target in
    let line = prefix_text tx_id start_tick (op_type_to_string type) arguments in
    let p : Prefix = record {
      tx_id = pos tx_id;
      start_tick = pos start_tick;
      op_str = op_type_to_string type;
      arguments = 32 ∷ arguments;
    } in
    parse_trace_line-steps line tx
    ∙ bind-eq (scan_prefix line) (with_prefix tx) p
        (scan_prefix-op tx_id start_tick type arguments a b)
    ∙ with_prefix-same tx p same same'
    ∙ bind-eq (parse_op_type (op_type_to_string type)) (λ t. parse_operation tx t (32 ∷ arguments))
        type (parse_op_type-op_type_to_string type)
    ∙ parse_operation-text tx type account amount target c d e

-- The steps of `parse_account`.
abbrev with_balance : Bank → ℤ → ℤ × List ℕ → Option Bank
with_balance bank account_id (balance, rest) = checked_account bank account_id balance

abbrev with_id : Bank → ℤ × List ℕ → Option Bank
with_id bank (account_id, rest) = scan_int rest >>= with_balance bank account_id

parse_account-steps :
    (bank : Bank) (line : List ℕ) → parse_account bank line ≡ (scan_int line >>= with_id bank)
unfolding parse_account
parse_account-steps bank line = refl

checked_account-pos :
    (bank : Bank) (id balance : ℕ)
    → checked_account bank (pos id) (pos balance)
      ≡ accepted (add_account bank (pos id) (pos balance))
checked_account-pos bank id balance =
    ap
      (λ b.
        if b
        then none
        else if ltb_ℤ (pos balance) (pos 0)
        then none
        else accepted (add_account bank (pos id) (pos balance)))
      (not_negative id)
    ∙ ap (λ b. if b then none else accepted (add_account bank (pos id) (pos balance)))
        (not_negative balance)
  where
    not_negative : (n : ℕ) → ltb_ℤ (pos n) (pos 0) ≡ false
    not_negative n = ground arith

-- A line `<id> <balance>` of an accounts file, with numbers in decimal and below 2^31, adds
-- exactly that account, or is an error when `add_account` refuses it.
pub parse_account-text :
    (bank : Bank) (id balance : ℕ)
    → id < int_half
    → balance < int_half
    → parse_account bank (decimal id ++ 32 ∷ decimal balance)
      ≡ accepted (add_account bank (pos id) (pos balance))
parse_account-text bank id balance a b =
    parse_account-steps bank (decimal id ++ 32 ∷ decimal balance)
    ∙ bind-eq (scan_int (decimal id ++ 32 ∷ decimal balance)) (with_id bank)
        (pos id, 32 ∷ decimal balance) (scan_int-decimal id (32 ∷ decimal balance) a refl)
    ∙ bind-eq (scan_int (32 ∷ decimal balance)) (with_balance bank (pos id)) (pos balance, [])
        (scan_int-final balance b)
    ∙ checked_account-pos bank id balance
