-- ===== src/Parser/Files/Traces.antt =====
-- The transactions that a trace file makes.
use cmsc125_lab3_sabandal_sa.Common.{
  ℕ, zero, suc, ◌≤◌, ◌≡◌, refl, ap, ◌∙◌, Bool, true, false, Bool-cases, inl, inr, Option, none,
  some, List, [], ◌∷◌, map, ℤ, pos, negsuc, arith, ltb_ℤ, if◌then◌else◌, subst, length, get_elem?,
  modify, length-modify, leb, not, ◌==ℤ◌,
}
use cmsc125_lab3_sabandal_sa.Transaction.{
  max_ops_per_tx, OpType, op_deposit, op_withdraw, op_transfer, op_balance, Operation, Transaction,
  no_operation, init_transaction, add_operation_to_transaction, parse_op_type,
}
use cmsc125_lab3_sabandal_sa.Transaction.Building.{
  IsWellFormed, add_operation_to_transaction-IsWellFormed,
}
use cmsc125_lab3_sabandal_sa.Parser.{
  max_transactions, trim_newline, should_skip_line, init_transactions, find_transaction,
  create_transaction, Trace, find_or_create_transaction,
}
use cmsc125_lab3_sabandal_sa.Parser.Lookup.{put_fresh-eq}
use cmsc125_lab3_sabandal_sa.Parser.Scan.{◌>>=◌, scan_int}
use cmsc125_lab3_sabandal_sa.Parser.Files.{
  scan_prefix, added, parse_operation, parse_trace_line, put_transaction, gather_line, trace_line,
  trace_lines, parse_trace_file,
}
use cmsc125_lab3_sabandal_sa.Parser.Files.Accounts.{bind-some, else-some}

-- Every transaction of the array is well formed.
abbrev pub AllWellFormed : List Transaction → Type 0
AllWellFormed [] = Unit
AllWellFormed (tx ∷ rest) = IsWellFormed tx × AllWellFormed rest

-- The array has its size, no more transactions are in use, and all are well formed.
pub record IsSound (t : Trace) : Type 0 where
  pub size : length t.transactions ≡ max_transactions
  pub bounded : t.num_transactions ≤ max_transactions
  pub all : AllWellFormed t.transactions

modify-AllWellFormed :
    (txs : List Transaction) (i : ℕ) (f : Transaction → Transaction)
    → AllWellFormed txs
    → ((tx : Transaction) → IsWellFormed tx → IsWellFormed (f tx))
    → AllWellFormed (modify txs i f)
modify-AllWellFormed [] i f all h = tt
modify-AllWellFormed (tx ∷ rest) zero f all h = (h tx all.0, all.1)
modify-AllWellFormed (tx ∷ rest) (suc i) f all h = (all.0, modify-AllWellFormed rest i f all.1 h)

pub AllWellFormed-get :
    (txs : List Transaction) (i : ℕ) (tx : Transaction)
    → AllWellFormed txs
    → get_elem? txs i ≡ some tx
    → IsWellFormed tx
AllWellFormed-get [] i tx all h = cc
AllWellFormed-get (x ∷ rest) zero tx all h =
    subst (λ o. elim o as (λ o. Type 0) [ none ↦ Unit | some y ↦ IsWellFormed y ]) h all.0
AllWellFormed-get (x ∷ rest) (suc i) tx all h = AllWellFormed-get rest i tx all.1 h

length-emptied :
    (ops : List Operation) → length (map (λ (o : Operation). no_operation) ops) ≡ length ops
length-emptied [] = refl
length-emptied (o ∷ ops) = ap suc (length-emptied ops)

init-IsWellFormed :
    (tx : Transaction) (id start_tick : ℤ)
    → length tx.ops ≡ max_ops_per_tx
    → IsWellFormed (init_transaction tx id start_tick)
unfolding init_transaction
init-IsWellFormed tx id start_tick size = record {
  size = length-emptied tx.ops ∙ size;
  bounded = omega arith;
}

same_transaction : (a b : Transaction) → some a ≡ some b → a ≡ b
same_transaction a b h = ap (λ (o : Option Transaction). elim o [ none ↦ a | some x ↦ x ]) h

added-IsWellFormed :
    (r : Bool × Transaction) (tx : Transaction)
    → IsWellFormed r.1
    → added r ≡ some tx
    → IsWellFormed tx
added-IsWellFormed (false, old) tx w h = cc
added-IsWellFormed (true, new) tx w h = subst IsWellFormed (same_transaction new tx h) w

parse_operation-IsWellFormed :
    (tx tx' : Transaction) (type : OpType) (arguments : List ℕ)
    → IsWellFormed tx
    → parse_operation tx type arguments ≡ some tx'
    → IsWellFormed tx'
unfolding parse_operation
parse_operation-IsWellFormed tx tx' op_deposit s w h =
    let ((id, r), e, h1) = bind-some (scan_int s) _ tx' h in
    let ((amount, r'), e', h2) = bind-some (scan_int r) _ tx' h1 in
    added-IsWellFormed (add_operation_to_transaction tx op_deposit id amount (negsuc 0)) tx'
      (add_operation_to_transaction-IsWellFormed tx op_deposit id amount (negsuc 0) w).0 h2
parse_operation-IsWellFormed tx tx' op_withdraw s w h =
    let ((id, r), e, h1) = bind-some (scan_int s) _ tx' h in
    let ((amount, r'), e', h2) = bind-some (scan_int r) _ tx' h1 in
    added-IsWellFormed (add_operation_to_transaction tx op_withdraw id amount (negsuc 0)) tx'
      (add_operation_to_transaction-IsWellFormed tx op_withdraw id amount (negsuc 0) w).0 h2
parse_operation-IsWellFormed tx tx' op_transfer s w h =
    let ((id, r), e, h1) = bind-some (scan_int s) _ tx' h in
    let ((target, r'), e', h2) = bind-some (scan_int r) _ tx' h1 in
    let ((amount, r''), e'', h3) = bind-some (scan_int r') _ tx' h2 in
    added-IsWellFormed (add_operation_to_transaction tx op_transfer id amount target) tx'
      (add_operation_to_transaction-IsWellFormed tx op_transfer id amount target w).0 h3
parse_operation-IsWellFormed tx tx' op_balance s w h =
    let ((id, r), e, h1) = bind-some (scan_int s) _ tx' h in
    added-IsWellFormed (add_operation_to_transaction tx op_balance id (pos 0) (negsuc 0)) tx'
      (add_operation_to_transaction-IsWellFormed tx op_balance id (pos 0) (negsuc 0) w).0 h1

pub parse_trace_line-IsWellFormed :
    (line : List ℕ) (tx tx' : Transaction)
    → IsWellFormed tx
    → parse_trace_line line tx ≡ some tx'
    → IsWellFormed tx'
unfolding parse_trace_line
parse_trace_line-IsWellFormed line tx tx' w h =
    let (p, e, h1) = bind-some (scan_prefix line) _ tx' h in
    let h2 = else-some (not (tx.tx_id ==ℤ p.tx_id)) _ tx' h1 in
    let h3 = else-some (not (tx.start_tick ==ℤ p.start_tick)) _ tx' h2 in
    let (type, e', h4) = bind-some (parse_op_type p.op_str) _ tx' h3 in
    parse_operation-IsWellFormed tx tx' type p.arguments w h4

pub create-IsSound :
    (t : Trace) (id start_tick : ℤ) (found : Option ℕ)
    → IsSound t
    → IsSound (create_transaction t id start_tick found).1
create-IsSound t id start_tick (some i) w = w
create-IsSound t id start_tick none w =
    elim (Bool-cases (leb max_transactions t.num_transactions)) [
      | inl full ↦ rw full w
      | inr room ↦
          let within =
            put_fresh-eq t.transactions t.num_transactions id start_tick (ground (arith, w.size)) in
          rw (room, within)
            (record {
              size = length-modify t.transactions t.num_transactions _ ∙ w.size;
              bounded = ground arith;
              all =
                  modify-AllWellFormed t.transactions t.num_transactions _ w.all
                    (λ tx h. init-IsWellFormed tx id start_tick h.size);
            })
    ]

pub same_trace : (a b : Trace) → some a ≡ some b → a ≡ b
same_trace a b h = ap (λ (o : Option Trace). elim o [ none ↦ a | some x ↦ x ]) h

pub gather_line-IsSound :
    (line : List ℕ) (r : Option ℕ × Trace) (t' : Trace)
    → IsSound r.1
    → gather_line line r ≡ some t'
    → IsSound t'
gather_line-IsSound line (none, t) t' w h = cc
gather_line-IsSound line (some i, t) t' w h =
    let (tx, e, h1) = bind-some (get_elem? t.transactions i) _ t' h in
    let (tx', e', h2) = bind-some (parse_trace_line line tx) _ t' h1 in
    subst IsSound (same_trace (put_transaction t i tx') t' h2) (record {
      size = length-modify t.transactions i _ ∙ w.size;
      bounded = w.bounded;
      all = modify-AllWellFormed t.transactions i _ w.all (λ old old_ok.
          parse_trace_line-IsWellFormed line tx tx' (AllWellFormed-get t.transactions i tx w.all e)
            e');
    })

pub trace_line-IsSound :
    (t t' : Trace) (line : List ℕ) → IsSound t → trace_line t line ≡ some t' → IsSound t'
unfolding trace_line find_or_create_transaction
trace_line-IsSound t t' line w h = by_test (should_skip_line line) h
  where
    by_test :
        (skipped : Bool)
        → (if skipped
            then some t
            else (scan_prefix line >>= λ p.
                if ltb_ℤ p.start_tick (pos 0)
                then none
                else gather_line line (find_or_create_transaction t p.tx_id p.start_tick)))
          ≡ some t'
        → IsSound t'
    by_test true e = subst IsSound (same_trace t t' e) w
    by_test false e =
        let (p, _, e1) = bind-some (scan_prefix line) _ t' e in
        let e2 = else-some (ltb_ℤ p.start_tick (pos 0)) _ t' e1 in
        gather_line-IsSound line (find_or_create_transaction t p.tx_id p.start_tick) t'
          (create-IsSound t p.tx_id p.start_tick
            (find_transaction t.transactions 0 t.num_transactions p.tx_id) w)
          e2

trace_lines-IsSound :
    (lines : List (List ℕ)) (t t' : Trace) → IsSound t → trace_lines lines t ≡ some t' → IsSound t'
unfolding trace_lines
trace_lines-IsSound [] t t' w h = subst IsSound (same_trace t t' h) w
trace_lines-IsSound (line ∷ lines) t t' w h =
    let (next, e, rest) = bind-some (trace_line t (trim_newline line)) (trace_lines lines) t' h in
    trace_lines-IsSound lines next t' (trace_line-IsSound t next (trim_newline line) w e) rest

-- Room for 256 operations in each.
abbrev pub AllSized : List Transaction → Type 0
AllSized [] = Unit
AllSized (tx ∷ rest) = (length tx.ops ≡ max_ops_per_tx) × AllSized rest

pub initial-AllWellFormed :
    (txs : List Transaction) → AllSized txs → AllWellFormed (init_transactions txs)
unfolding init_transactions
initial-AllWellFormed [] h = tt
initial-AllWellFormed (tx ∷ rest) h =
    (init-IsWellFormed tx (negsuc 0) (pos 0) h.0, initial-AllWellFormed rest h.1)

pub length-initial : (txs : List Transaction) → length (init_transactions txs) ≡ length txs
unfolding init_transactions
length-initial [] = refl
length-initial (tx ∷ rest) = ap suc (length-initial rest)

-- The transactions of a trace file. If `parse_trace_file` succeeds on an array of 256 transactions
-- with room for 256 operations each, whatever they hold, then the array keeps its size, at most
-- 256 transactions are in use, and each has at most 256 operations.
pub parse_trace_file-IsSound :
    (lines : List (List ℕ)) (txs : List Transaction) (t : Trace)
    → length txs ≡ max_transactions
    → AllSized txs
    → parse_trace_file lines txs ≡ some t
    → IsSound t
unfolding parse_trace_file
parse_trace_file-IsSound lines txs t size sized h =
    trace_lines-IsSound lines _ t
      (record {
        size = length-initial txs ∙ size;
        bounded = omega arith;
        all = initial-AllWellFormed txs sized;
      })
      h
