-- ===== src/Parser/Files/Gathering.antt =====
-- `parse_trace_file` of src/system/parser.c gathers the lines of a trace by their transaction.
use mathlib.Core.List.{append-nil, append_assoc}
use cmsc125_lab3_sabandal_sa.Common.{
  ℕ, ◌<◌, ◌≡◌, sym, refl, ◌∙◌, subst, Bool, true, false, Option, none, some, List, [], ◌∷◌, ◌++◌, ℤ,
  pos, arith, ltb_ℤ, if◌then◌else◌, length, get_elem?,
}
use cmsc125_lab3_sabandal_sa.Transaction.{Operation, Transaction}
use cmsc125_lab3_sabandal_sa.Parser.{
  max_transactions, trim_newline, should_skip_line, find_transaction, Trace,
  find_or_create_transaction, init_transactions,
}
use cmsc125_lab3_sabandal_sa.Parser.Lookup.{
  Gathered, had, made, full, find_or_create_transaction-Gathered,
}
use cmsc125_lab3_sabandal_sa.Parser.Scan.{◌>>=◌}
use cmsc125_lab3_sabandal_sa.Parser.Files.{
  Prefix, scan_prefix, parse_trace_line, put_transaction, gather_line, trace_line, trace_lines,
  parse_trace_file,
}
use cmsc125_lab3_sabandal_sa.Parser.Files.Accounts.{bind-some, else-some}
use cmsc125_lab3_sabandal_sa.Parser.Files.Reading.{
  line_operations, operations_for, parse_trace_line-Grown, line_operations-other,
}
use cmsc125_lab3_sabandal_sa.Parser.Files.Traces.{
  IsSound, AllSized, AllWellFormed-get, create-IsSound, same_trace, gather_line-IsSound,
  initial-AllWellFormed, length-initial,
}
use cmsc125_lab3_sabandal_sa.Parser.Files.Collected.{Collected, fresh-Collected, put-Collected}

-- The transaction of a line is there, and takes its operation.
grow-Collected :
    (done : ℤ → List Operation) (t t' : Trace) (line : List ℕ) (p : Prefix) (i : ℕ)
    → Collected done t
    → i < t.num_transactions
    → should_skip_line line ≡ false
    → scan_prefix line ≡ some p
    → gather_line line (some i, t) ≡ some t'
    → Collected (λ id. done id ++ line_operations id line) t'
grow-Collected done t t' line p i c within read prefix h =
    let (tx, entry, h1) = bind-some (get_elem? t.transactions i) _ t' h in
    let (tx', e, h2) = bind-some (parse_trace_line line tx) _ t' h1 in
    let (named, grown) =
      parse_trace_line-Grown line tx tx' p read prefix
        (AllWellFormed-get t.transactions i tx c.sound.all entry) e in
    let same = same_trace (put_transaction t i tx') t' h2 in
    subst (Collected (λ id. done id ++ line_operations id line)) same (
      put-Collected done t c i tx tx' (λ id. line_operations id line) within entry grown
        (λ id ne. line_operations-other line p id prefix (λ x. ne (named ∙ x)))
        (subst IsSound (sym same) (gather_line-IsSound line (some i, t) t' c.sound h)))

Gathered-Collected :
    (done : ℤ → List Operation) (t t' : Trace) (line : List ℕ) (p : Prefix) (r : Option ℕ × Trace)
    → Collected done t
    → should_skip_line line ≡ false
    → scan_prefix line ≡ some p
    → Gathered t p.tx_id p.start_tick r
    → IsSound r.1
    → gather_line line r ≡ some t'
    → Collected (λ id. done id ++ line_operations id line) t'
Gathered-Collected done t t' line p _ c read prefix (had i tx lt entry named) sound h =
    grow-Collected done t t' line p i c lt read prefix h
Gathered-Collected done t t' line p _ c read prefix (made next missing w e) sound h =
    grow-Collected done next t' line p t.num_transactions
      (fresh-Collected done t c p.tx_id p.start_tick next missing sound e) (omega (arith, e.longer))
      read prefix h
Gathered-Collected done t t' line p _ c read prefix (full missing all) sound h = cc

shift :
    (ops_for ops_for' : ℤ → List Operation) (t : Trace)
    → ((id : ℤ) → ops_for id ≡ ops_for' id)
    → Collected ops_for t
    → Collected ops_for' t
shift ops_for ops_for' t same c = record {
  sound = c.sound;
  distinct = c.distinct;
  ops = λ i tx lt h. c.ops i tx lt h ∙ same tx.tx_id;
  absent = λ id missing. sym (same id) ∙ c.absent id missing;
}

trace_line-Collected :
    (done : ℤ → List Operation) (t t' : Trace) (line : List ℕ)
    → Collected done t
    → trace_line t line ≡ some t'
    → Collected (λ id. done id ++ line_operations id line) t'
unfolding trace_line find_or_create_transaction
trace_line-Collected done t t' line c h = by_test (should_skip_line line) refl h
  where
    by_test :
        (skipped : Bool)
        → should_skip_line line ≡ skipped
        → (if skipped
            then some t
            else (scan_prefix line >>= λ p.
                if ltb_ℤ p.start_tick (pos 0)
                then none
                else gather_line line (find_or_create_transaction t p.tx_id p.start_tick)))
          ≡ some t'
        → Collected (λ id. done id ++ line_operations id line) t'
    by_test true skip e =
        shift done (λ id. done id ++ line_operations id line) t'
          (λ id. rw skip (sym (append-nil (done id))))
          (subst (Collected done) (same_trace t t' e) c)
    by_test false read e =
        let (p, prefix, e1) = bind-some (scan_prefix line) _ t' e in
        let e2 = else-some (ltb_ℤ p.start_tick (pos 0)) _ t' e1 in
        Gathered-Collected done t t' line p (find_or_create_transaction t p.tx_id p.start_tick) c
          read prefix
          (find_or_create_transaction-Gathered t p.tx_id p.start_tick
            (record { size = c.sound.size; bounded = c.sound.bounded }))
          (create-IsSound t p.tx_id p.start_tick
            (find_transaction t.transactions 0 t.num_transactions p.tx_id) c.sound)
          e2

trace_lines-Collected :
    (lines : List (List ℕ)) (done : ℤ → List Operation) (t t' : Trace)
    → Collected done t
    → trace_lines lines t ≡ some t'
    → Collected (λ id. done id ++ operations_for id lines) t'
unfolding trace_lines operations_for
trace_lines-Collected [] done t t' c h =
    shift done (λ id. done id ++ []) t' (λ id. sym (append-nil (done id)))
      (subst (Collected done) (same_trace t t' h) c)
trace_lines-Collected (line ∷ lines) done t t' c h =
    let (next, e, rest) = bind-some (trace_line t (trim_newline line)) (trace_lines lines) t' h in
    shift (λ id. (done id ++ line_operations id (trim_newline line)) ++ operations_for id lines)
      (λ id. done id ++ (line_operations id (trim_newline line) ++ operations_for id lines)) t'
      (λ id.
        append_assoc (done id) (line_operations id (trim_newline line)) (operations_for id lines))
      (trace_lines-Collected lines (λ id. done id ++ line_operations id (trim_newline line)) next t'
        (trace_line-Collected done t next (trim_newline line) c e) rest)

-- Every line of a trace goes to its transaction. If `parse_trace_file` succeeds on an array of 256
-- transactions with room for 256 operations each, whatever they hold, then the transactions in use
-- have different identifiers, the operations of each are exactly those of the lines with its
-- identifier, in the order of the lines, and no line has an identifier that no transaction has.
pub parse_trace_file-Collected :
    (lines : List (List ℕ)) (txs : List Transaction) (t : Trace)
    → length txs ≡ max_transactions
    → AllSized txs
    → parse_trace_file lines txs ≡ some t
    → Collected (λ id. operations_for id lines) t
unfolding parse_trace_file
parse_trace_file-Collected lines txs t size sized h =
    trace_lines-Collected lines (λ id. [])
      (record { transactions = init_transactions txs; num_transactions = 0 }) t
      (record {
        sound = record {
          size = length-initial txs ∙ size;
          bounded = omega arith;
          all = initial-AllWellFormed txs sized;
        };
        distinct = λ i j a b lt lt' h h' same. absurd (omega arith);
        ops = λ i tx lt h. absurd (omega arith);
        absent = λ id missing. refl;
      })
      h
