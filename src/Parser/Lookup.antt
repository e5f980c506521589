-- ===== src/Parser/Lookup.antt =====
-- `find_or_create_transaction` of src/system/parser.c: the lines of a trace are gathered by their
-- transaction.
use cmsc125_lab3_sabandal_sa.Common.{
  ℕ, zero, suc, ◌+◌, ◌≤◌, ◌<◌, ◌≡◌, ◌≢◌, refl, ap, ◌∙◌, Bool-cases, Option-cases, inl, inr, Option,
  none, some, List, [], ◌∷◌, ℤ, arith, leb, ◌==ℤ◌, length, get_elem?, modify, length-modify,
  get_elem?-modify_self, get_elem?-modify_ne, get_elem?-some,
}
use cmsc125_lab3_sabandal_sa.Transaction.{Transaction, init_transaction}
use cmsc125_lab3_sabandal_sa.Parser.{
  max_transactions, put_fresh, create_transaction, find_transaction, Trace,
  find_or_create_transaction,
}

-- Room for as many transactions as the array has.
pub record IsTrace (t : Trace) : Type 0 where
  pub size : length t.transactions ≡ max_transactions
  pub bounded : t.num_transactions ≤ max_transactions

find-hit :
    (txs : List Transaction) (from rounds : ℕ) (id : ℤ) (j : ℕ)
    → find_transaction txs from rounds id ≡ some j
    → (k : ℕ) × (tx : Transaction) × (j ≡ from + k)
      × (k < rounds)
      × (get_elem? txs k ≡ some tx)
      × (tx.tx_id ≡ id)
unfolding find_transaction
find-hit [] from rounds id j h = cc
find-hit (tx ∷ rest) from zero id j h = cc
find-hit (tx ∷ rest) from (suc rounds) id j h = elim (Bool-cases (tx.tx_id ==ℤ id)) [
  | inl e ↦ (zero, tx, ground arith, omega arith, refl, ground arith)
  | inr e ↦
      let (k, found, place, low, entry, same) = find-hit rest (suc from) rounds id j (rw e at h) in
      (suc k, found, omega arith, omega arith, entry, same)
]

find-miss :
    (txs : List Transaction) (from rounds : ℕ) (id : ℤ)
    → find_transaction txs from rounds id ≡ none
    → (k : ℕ) (tx : Transaction) → k < rounds
    → get_elem? txs k ≡ some tx
    → tx.tx_id ≢ id
unfolding find_transaction
find-miss [] from rounds id h k tx lt e = cc
find-miss (x ∷ rest) from zero id h k tx lt e = absurd (omega arith)
find-miss (x ∷ rest) from (suc rounds) id h zero tx lt e = ground arith
find-miss (x ∷ rest) from (suc rounds) id h (suc k) tx lt e =
    find-miss rest (suc from) rounds id (ground arith) k tx (omega arith) e

-- No transaction of the trace has the identifier.
abbrev pub Absent : Trace → ℤ → Type 0
Absent t id =
    (k : ℕ) (tx : Transaction)
    → k < t.num_transactions
    → get_elem? t.transactions k ≡ some tx
    → tx.tx_id ≢ id

-- A fresh transaction at the end of the trace, and the others as they were.
pub record Extends (t : Trace) (id start_tick : ℤ) (t' : Trace) : Type 0 where
  pub fresh : Transaction
  pub longer : t'.num_transactions ≡ suc t.num_transactions
  pub at_end : get_elem? t'.transactions t.num_transactions ≡ some fresh
  pub named : fresh.tx_id ≡ id
  pub starts : fresh.start_tick ≡ start_tick
  pub without_ops : fresh.num_ops ≡ 0
  pub others :
      (k : ℕ) → k < t.num_transactions → get_elem? t'.transactions k ≡ get_elem? t.transactions k

-- What a call can give: the transaction that the trace had already, or a fresh one at its end, or
-- nothing, since there is no room for one.
pub data Gathered (t : Trace) (id start_tick : ℤ) : Option ℕ × Trace → Type 0 where
  had :
      (i : ℕ) (tx : Transaction)
      → i < t.num_transactions
      → get_elem? t.transactions i ≡ some tx
      → tx.tx_id ≡ id
      → Gathered t id start_tick (some i, t)
  made :
      (t' : Trace)
      → Absent t id
      → IsTrace t'
      → Extends t id start_tick t'
      → Gathered t id start_tick (some t.num_transactions, t')
  full : Absent t id → t.num_transactions ≡ max_transactions → Gathered t id start_tick (none, t)

-- Within the array a write changes one entry, and its length stays.
pub put_fresh-eq :
    (txs : List Transaction) (i : ℕ) (id start_tick : ℤ)
    → i < length txs
    → put_fresh txs i id start_tick ≡ modify txs i (λ tx. init_transaction tx id start_tick)
put_fresh-eq [] i id start_tick lt = absurd (omega arith)
put_fresh-eq (tx ∷ rest) zero id start_tick lt = refl
put_fresh-eq (tx ∷ rest) (suc i) id start_tick lt =
    ap (tx ∷◌) (put_fresh-eq rest i id start_tick (omega arith))

abbrev extended : Trace → ℤ → ℤ → Trace
extended t id start_tick = record {
  transactions = modify t.transactions t.num_transactions (λ tx. init_transaction tx id start_tick);
  num_transactions = t.num_transactions + 1;
}

module _ (t : Trace) (id start_tick : ℤ) (w : IsTrace t) where
  create-Gathered :
      find_transaction t.transactions 0 t.num_transactions id ≡ none
      → Gathered t id start_tick (create_transaction t id start_tick none)
  unfolding init_transaction
  create-Gathered e = elim (Bool-cases (leb max_transactions t.num_transactions)) [
    | inl no_room ↦ rw no_room (full absent (ground (arith, w.bounded)))
    | inr room ↦
        rw
          (
            room,
            put_fresh-eq t.transactions t.num_transactions id start_tick (ground (arith, w.size)),
          )
          (made (extended t id start_tick) absent
            (record {
              size = length-modify t.transactions t.num_transactions _ ∙ w.size;
              bounded = ground arith;
            })
            (extends (ground arith)))
  ]
    where
      absent : Absent t id
      absent k tx lt h = find-miss t.transactions 0 t.num_transactions id e k tx lt h

      extends :
          t.num_transactions < max_transactions → Extends t id start_tick (extended t id start_tick)
      extends room =
          let (old, h) = get_elem?-some t.transactions t.num_transactions (omega (arith, w.size)) in
          record {
            fresh = init_transaction old id start_tick;
            longer = omega arith;
            at_end =
                get_elem?-modify_self t.transactions t.num_transactions
                  (λ tx. init_transaction tx id start_tick) old h;
            named = refl;
            starts = refl;
            without_ops = refl;
            others = λ k lt.
                get_elem?-modify_ne t.transactions t.num_transactions k
                  (λ tx. init_transaction tx id start_tick) (λ same. omega arith);
          }

  -- Lines are gathered by transaction. A call of `find_or_create_transaction` on an array of full
  -- size gives a transaction with the identifier, in a trace that is as it was; or, if there is
  -- none and there is room, a fresh one at the end with the identifier and the start tick and
  -- without operations, the others as they were; or nothing, if there is none and 256 are there.
  pub find_or_create_transaction-Gathered :
      Gathered t id start_tick (find_or_create_transaction t id start_tick)
  unfolding find_or_create_transaction
  find_or_create_transaction-Gathered =
      elim (Option-cases (find_transaction t.transactions 0 t.num_transactions id)) [
        | inl e ↦ rw e (create-Gathered e)
        | inr (i, e) ↦
            let (k, tx, place, low, entry, same) =
              find-hit t.transactions 0 t.num_transactions id i e in
            let at : i ≡ k = omega arith in rw (e, at) (had k tx low entry same)
      ]
