-- ===== src/Serial/Room.antt =====
-- When the pool has room for all the accounts of a transaction that runs alone, it returns.
use cmsc125_lab3_sabandal_sa.Common.{
  ℕ, ◌+◌, ◌≤◌, ◌<◌, ◌≡◌, refl, sym, ap, subst, inl, inr, Bool, true, false, Option, none, some,
  List, [], ◌∷◌, ℤ, arith, leb, ltb_ℤ, ◌==ℤ◌, ==ℤ-eq, Bool-cases, Option-cases, if◌then◌else◌, take,
  length,
}
use cmsc125_lab3_sabandal_sa.Bank.{Bank}
use cmsc125_lab3_sabandal_sa.BufferPool.{buffer_pool_size}
use cmsc125_lab3_sabandal_sa.Machine.{Shared, exec}
use cmsc125_lab3_sabandal_sa.Transaction.{
  OpType, op_deposit, op_withdraw, op_transfer, op_balance, Operation, TxStatus, tx_committed,
  tx_aborted, Transaction,
}
use cmsc125_lab3_sabandal_sa.Transaction.Execute.{execute_transaction}
use cmsc125_lab3_sabandal_sa.Serial.{
  Ledger, is_among, admit, and_then, admit_for, apply_operation, after_operation, run_ledger,
}
use cmsc125_lab3_sabandal_sa.Serial.Pool.{occurrences}
use cmsc125_lab3_sabandal_sa.Serial.Loading.{occurrences_absent}
use cmsc125_lab3_sabandal_sa.Serial.Mirror.{Mirrors}
use cmsc125_lab3_sabandal_sa.Serial.Refinement.{begun, Ends, finished, execute_transaction-refines}

-- How many of the entries of `needed` are loaded.
unfoldable pub covered : List ℤ → List ℤ → ℕ
covered loaded [] = 0
covered loaded (x ∷ needed) = occurrences loaded x + covered loaded needed

-- Loaded accounts are among the needed ones, each once.
pub record Within (needed loaded : List ℤ) : Type 0 where
  pub counted : length loaded ≤ covered loaded needed
  pub once : (id : ℤ) → occurrences loaded id ≤ 1

pub covered-le :
    (needed loaded : List ℤ)
    → ((id : ℤ) → occurrences loaded id ≤ 1)
    → covered loaded needed ≤ length needed
unfolding covered
covered-le [] loaded h = omega arith
covered-le (x ∷ needed) loaded h = omega (arith, h x, covered-le needed loaded h)

covered-cons :
    (needed : List ℤ) (a : ℤ) (loaded : List ℤ)
    → covered (a ∷ loaded) needed ≡ covered (a ∷ []) needed + covered loaded needed
unfolding covered
covered-cons [] a loaded = refl
covered-cons (x ∷ needed) a loaded = omega (arith, covered-cons needed a loaded)

covered-among : (needed : List ℤ) (a : ℤ) → is_among needed a ≡ true → 0 < covered (a ∷ []) needed
unfolding covered
covered-among [] a h = cc
covered-among (x ∷ needed) a h = elim (Bool-cases (x ==ℤ a)) [
  | inl e ↦ ground arith
  | inr e ↦ omega (arith, covered-among needed a (ground arith))
]

pub Within-nil : (needed : List ℤ) → Within needed []
Within-nil needed = record { counted = omega arith; once = λ id. omega arith }

pub Within-cons :
    (needed : List ℤ) (a : ℤ) (loaded : List ℤ)
    → Within needed loaded
    → is_among needed a ≡ true
    → is_among loaded a ≡ false
    → Within needed (a ∷ loaded)
Within-cons needed a loaded w needs new = record {
  counted = omega (arith, w.counted, covered-cons needed a loaded, covered-among needed a needs);
  once = λ id. elim (Bool-cases (a ==ℤ id)) [
    | inl e ↦
        ground
          (arith, ap (occurrences loaded) (sym (==ℤ-eq a id e)), occurrences_absent loaded a new)
    | inr e ↦ ground (arith, w.once id)
  ];
}

-- A new account has room, since those loaded and itself are among at most five.
room_for :
    (needed : List ℤ) (a : ℤ) (loaded : List ℤ)
    → Within needed (a ∷ loaded)
    → length needed ≤ buffer_pool_size
    → leb buffer_pool_size (length loaded) ≡ false
room_for needed a loaded w few = ground (arith, w.counted, covered-le needed (a ∷ loaded) w.once)

-- The accounts of an operation are among the needed ones.
abbrev pub Names : List ℤ → Operation → OpType → Type 0
Names needed op op_transfer =
    (is_among needed op.account_id ≡ true) × (is_among needed op.target_account ≡ true)
Names needed op _ = is_among needed op.account_id ≡ true

abbrev pub AllNamed : List ℤ → List Operation → Type 0
AllNamed needed [] = Unit
AllNamed needed (op ∷ ops) = Names needed op op.type × AllNamed needed ops

module _ (needed : List ℤ) (few : length needed ≤ buffer_pool_size) where
  -- The account is let in or refused, but there is a result.
  abbrev Settles : Option (Bool × List ℤ) → Type 0
  Settles none = ⊥
  Settles (some (ok, loaded)) = Within needed loaded

  admit-Settles :
      (l : Ledger) (loaded : List ℤ) (id : ℤ)
      → Within needed loaded
      → is_among needed id ≡ true
      → Settles (admit l loaded id)
  admit-Settles l loaded id w needs = elim (Bool-cases (is_among loaded id)) [
    | inl e ↦ rw e w
    | inr e ↦
        let more = Within-cons needed id loaded w needs e in
        elim (Option-cases (l.balances id)) [
          | inl h ↦ rw (e, h) w
          | inr (b, h) ↦ rw (e, h, room_for needed id loaded more few) more
        ]
  ]

  second-Settles :
      (l : Ledger) (id : ℤ) (o : Option (Bool × List ℤ))
      → is_among needed id ≡ true
      → Settles o
      → Settles (and_then o λ (ok, loaded). if ok then admit l loaded id else some (false, loaded))
  second-Settles l id none needs h = h
  second-Settles l id (some (true, loaded)) needs w = admit-Settles l loaded id w needs
  second-Settles l id (some (false, loaded)) needs w = w

  admit_for-Settles :
      (l : Ledger) (loaded : List ℤ) (op : Operation) (type : OpType)
      → Within needed loaded
      → Names needed op type
      → Settles (admit_for l loaded op type)
  admit_for-Settles l loaded op op_deposit w names = admit-Settles l loaded op.account_id w names
  admit_for-Settles l loaded op op_withdraw w names = admit-Settles l loaded op.account_id w names
  admit_for-Settles l loaded op op_balance w names = admit-Settles l loaded op.account_id w names
  admit_for-Settles l loaded op op_transfer w (names, target_names) =
      second-Settles l op.target_account (admit l loaded op.account_id) target_names
        (admit-Settles l loaded op.account_id w names)

  abbrev HasResult : Option (TxStatus × Ledger) → Type 0
  HasResult o = (status : TxStatus) × (l : Ledger) × (o ≡ some (status, l))

  module _ (tx_id : ℤ) (ops : List Operation)
      (rest : (loaded : List ℤ) (l : Ledger)
        → Within needed loaded
        → HasResult (run_ledger tx_id ops loaded l)) where
    performed-HasResult :
        (r : Bool × Ledger) (loaded : List ℤ)
        → Within needed loaded
        → HasResult (after_operation r (run_ledger tx_id ops loaded))
    performed-HasResult (true, l) loaded w = rest loaded l w
    performed-HasResult (false, l) loaded w = (tx_aborted, l, refl)

    operation-HasResult :
        (l : Ledger) (r : Bool × Ledger) (o : Option (Bool × List ℤ))
        → Settles o
        → HasResult (
            and_then o λ (ok, loaded).
              if ok then after_operation r (run_ledger tx_id ops loaded) else some (tx_aborted, l))
    operation-HasResult l r none h = absurd h
    operation-HasResult l r (some (true, loaded)) w = performed-HasResult r loaded w
    operation-HasResult l r (some (false, loaded)) w = (tx_aborted, l, refl)

  run_ledger-HasResult :
      (tx_id : ℤ) (ops : List Operation) (loaded : List ℤ) (l : Ledger)
      → AllNamed needed ops
      → Within needed loaded
      → HasResult (run_ledger tx_id ops loaded l)
  unfolding run_ledger
  run_ledger-HasResult tx_id [] loaded l names w = (tx_committed, l, refl)
  run_ledger-HasResult tx_id (op ∷ ops) loaded l (names, others) w =
      operation-HasResult tx_id ops
        (λ loaded' l' w'. run_ledger-HasResult tx_id ops loaded' l' others w') l
        (apply_operation tx_id l op op.type) (admit_for l loaded op op.type)
        (admit_for-Settles l loaded op op.type w names)

-- A transaction of few accounts returns. If at most five accounts are `needed` and every operation
-- names only such, then `execute_transaction`, run alone at or after its start tick from a memory
-- that mirrors a ledger and has nothing loaded, returns, with the status and the ledger of the
-- ledger's run, and leaves nothing loaded.
pub execute_transaction-returns :
    (bank : Bank) (now : ℤ) (tx : Transaction) (l : Ledger) (m : Shared) (needed : List ℤ)
    → Mirrors bank now [] l m
    → ltb_ℤ now tx.start_tick ≡ false
    → length needed ≤ buffer_pool_size
    → AllNamed needed (take tx.num_ops tx.ops)
    → (status : TxStatus) × (l' : Ledger) × (m' : Shared) × (run_ledger tx.tx_id
          (take tx.num_ops tx.ops)
          []
          l
        ≡ some (status, l'))
      × (exec (execute_transaction bank tx) m ≡ some (finished bank now (begun now tx) status, m'))
      × Mirrors bank now [] l' m'
execute_transaction-returns bank now tx l m needed mirror started few names =
    let (status, l', e) =
      run_ledger-HasResult needed few tx.tx_id (take tx.num_ops tx.ops) [] l names
        (Within-nil needed) in
    let (m', h, mirror') =
      subst (λ o. Ends bank now (begun now tx) o (execute_transaction bank tx) m) e
        (execute_transaction-refines bank now tx l m mirror started) in
    (status, l', m', e, h, mirror')
