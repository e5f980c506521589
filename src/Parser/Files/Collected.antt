-- ===== src/Parser/Files/Collected.antt =====
-- The array of transactions that src/system/parser.c fills, and the operations that each is to have.
use mathlib.Core.List.{append-nil}
use cmsc125_lab3_sabandal_sa.Common.{
  ℕ, ◌<◌, ◌≡◌, ◌≢◌, sym, refl, ap, ◌∙◌, inl, inr, ◌⊎◌, none, some, List, [], ◌++◌, ℤ, arith, take,
  get_elem?, get_elem?-modify_self, get_elem?-modify_ne, ℕ_discrete,
}
use cmsc125_lab3_sabandal_sa.Transaction.{Operation, Transaction}
use cmsc125_lab3_sabandal_sa.Parser.{Trace}
use cmsc125_lab3_sabandal_sa.Parser.Lookup.{Absent, Extends}
use cmsc125_lab3_sabandal_sa.Parser.Files.{put_transaction}
use cmsc125_lab3_sabandal_sa.Parser.Files.Reading.{Grown}
use cmsc125_lab3_sabandal_sa.Parser.Files.Traces.{IsSound}

-- The transactions in use have different identifiers, and each has exactly the operations that are
-- for it; an identifier without a transaction has none.
pub record Collected (ops_for : ℤ → List Operation) (t : Trace) : Type 0 where
  pub sound : IsSound t
  pub distinct :
      (i j : ℕ) (a b : Transaction)
      → i < t.num_transactions
      → j < t.num_transactions
      → get_elem? t.transactions i ≡ some a
      → get_elem? t.transactions j ≡ some b
      → a.tx_id ≡ b.tx_id
      → i ≡ j
  pub ops :
      (i : ℕ) (tx : Transaction)
      → i < t.num_transactions
      → get_elem? t.transactions i ≡ some tx
      → take tx.num_ops tx.ops ≡ ops_for tx.tx_id
  pub absent : (id : ℤ) → Absent t id → ops_for id ≡ []

some-inj : {A : Type 0} (a b : A) → some a ≡ some b → a ≡ b
some-inj a b h = ap (λ o. elim o [ none ↦ a | some x ↦ x ]) h

module _ (done : ℤ → List Operation) (t : Trace) (c : Collected done t) where
  -- A fresh transaction, whose identifier nothing is for yet.
  module _ (id start_tick : ℤ) (t' : Trace) (missing : Absent t id) (sound : IsSound t')
      (e : Extends t id start_tick t') where
    old_or_fresh :
        (k : ℕ) (tx : Transaction)
        → k < t'.num_transactions
        → get_elem? t'.transactions k ≡ some tx
        → ((k < t.num_transactions) × (get_elem? t.transactions k ≡ some tx))
          ⊎ ((k ≡ t.num_transactions) × (tx ≡ e.fresh))
    old_or_fresh k tx lt h = elim (ℕ_discrete k t.num_transactions) [
      | yes at ↦
          inr (at, some-inj tx e.fresh (sym h ∙ ap (get_elem? t'.transactions) at ∙ e.at_end))
      | no other ↦
          let below : k < t.num_transactions = omega (arith, other, e.longer) in
          inl (below, sym (e.others k below) ∙ h)
    ]

    fresh-other :
        (k : ℕ) (tx : Transaction)
        → k < t.num_transactions
        → get_elem? t.transactions k ≡ some tx
        → tx.tx_id ≢ e.fresh.tx_id
    fresh-other k tx lt h same = missing k tx lt h (same ∙ e.named)

    pub fresh-Collected : Collected done t'
    fresh-Collected = record {
      sound = sound;
      distinct = λ i j a b lt lt' h h' same. elim (old_or_fresh i a lt h) [
        | inl (low, old) ↦ elim (old_or_fresh j b lt' h') [
          | inl (low', old') ↦ c.distinct i j a b low low' old old' same
          | inr (at', new') ↦
              absurd (fresh-other i a low old (same ∙ ap (λ (x : Transaction). x.tx_id) new'))
        ]
        | inr (at, new) ↦ elim (old_or_fresh j b lt' h') [
          | inl (low', old') ↦
              absurd (fresh-other j b low' old' (sym same ∙ ap (λ (x : Transaction). x.tx_id) new))
          | inr (at', new') ↦ at ∙ sym at'
        ]
      ];
      ops = λ i tx lt h. elim (old_or_fresh i tx lt h) [
        | inl (low, old) ↦ c.ops i tx low old
        | inr (at, new) ↦
            ap (λ (x : Transaction). take x.num_ops x.ops) new
            ∙ ap (λ n. take n e.fresh.ops) e.without_ops
            ∙ sym (c.absent id missing)
            ∙ ap done (sym e.named ∙ sym (ap (λ (x : Transaction). x.tx_id) new))
      ];
      absent = λ id' none_there.
          c.absent id' (λ k tx lt h. none_there k tx (omega (arith, e.longer)) (e.others k lt ∙ h));
    }

  -- A transaction that has grown.
  module _ (i : ℕ) (tx tx' : Transaction) (extra : ℤ → List Operation)
      (within : i < t.num_transactions) (entry : get_elem? t.transactions i ≡ some tx)
      (grown : Grown tx (extra tx.tx_id) tx')
      (nothing_else : (id : ℤ) → tx.tx_id ≢ id → extra id ≡ [])
      (sound : IsSound (put_transaction t i tx')) where
    put-entry :
        (k : ℕ) (b : Transaction)
        → get_elem? (put_transaction t i tx').transactions k ≡ some b
        → ((i ≡ k) × (b ≡ tx')) ⊎ ((i ≢ k) × (get_elem? t.transactions k ≡ some b))
    put-entry k b h = elim (ℕ_discrete i k) [
      | yes here ↦ inl (
        here,
        some-inj b tx' (
            sym h
            ∙ ap (get_elem? (put_transaction t i tx').transactions) (sym here)
            ∙ get_elem?-modify_self t.transactions i (λ old. tx') tx entry),
      )
      | no other ↦ inr (other, sym (get_elem?-modify_ne t.transactions i k (λ old. tx') other) ∙ h)
    ]

    -- What stood in the entry, with the same identifier.
    before :
        (k : ℕ) (b : Transaction)
        → get_elem? (put_transaction t i tx').transactions k ≡ some b
        → (a : Transaction) × (get_elem? t.transactions k ≡ some a) × (a.tx_id ≡ b.tx_id)
    before k b h = elim (put-entry k b h) [
      | inl (here, same) ↦ (
        tx,
        ap (get_elem? t.transactions) (sym here) ∙ entry,
        sym grown.same ∙ ap (λ (x : Transaction). x.tx_id) (sym same),
      )
      | inr (other, old) ↦ (b, old, refl)
    ]

    put-ops :
        (k : ℕ) (b : Transaction)
        → k < t.num_transactions
        → get_elem? (put_transaction t i tx').transactions k ≡ some b
        → take b.num_ops b.ops ≡ done b.tx_id ++ extra b.tx_id
    put-ops k b lt h = elim (put-entry k b h) [
      | inl (here, same) ↦
          let id_same : tx.tx_id ≡ b.tx_id =
            sym grown.same ∙ ap (λ (x : Transaction). x.tx_id) (sym same) in
          ap (λ (x : Transaction). take x.num_ops x.ops) same
          ∙ grown.more
          ∙ ap (◌++ extra tx.tx_id) (c.ops i tx within entry)
          ∙ ap (λ id. done id ++ extra id) id_same
      | inr (other, old) ↦
          c.ops k b lt old
          ∙ sym (append-nil (done b.tx_id))
          ∙ ap (done b.tx_id ++◌) (
              sym (
                nothing_else b.tx_id
                  (λ same. other (c.distinct i k tx b within lt entry old same))))
    ]

    put-Absent : (id : ℤ) → Absent (put_transaction t i tx') id → done id ++ extra id ≡ []
    put-Absent id missing =
        ap (done id ++◌) (
          nothing_else id (λ same.
            missing i tx' within (get_elem?-modify_self t.transactions i (λ old. tx') tx entry)
              (grown.same ∙ same)))
        ∙ append-nil (done id)
        ∙ c.absent id (λ k a lt h same. elim (ℕ_discrete i k) [
          | yes here ↦
              missing i tx' within (get_elem?-modify_self t.transactions i (λ old. tx') tx entry) (
                grown.same
                ∙ ap (λ (x : Transaction). x.tx_id)
                    (some-inj tx a (sym entry ∙ ap (get_elem? t.transactions) here ∙ h))
                ∙ same)
          | no other ↦
              missing k a lt (get_elem?-modify_ne t.transactions i k (λ old. tx') other ∙ h) same
        ])

    pub put-Collected : Collected (λ id. done id ++ extra id) (put_transaction t i tx')
    put-Collected = record {
      sound = sound;
      distinct = λ j k a b lt lt' h h' same.
          let (a', old, from) = before j a h in
          let (b', old', from') = before k b h' in
          c.distinct j k a' b' lt lt' old old' (from ∙ same ∙ sym from');
      ops = put-ops;
      absent = put-Absent;
    }
