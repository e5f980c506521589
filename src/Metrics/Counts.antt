-- ===== src/Metrics/Counts.antt =====
-- The counts of `print_summary`.
use cmsc125_lab3_sabandal_sa.Common.{
  ℕ, suc, ◌+◌, ◌<◌, ◌≡◌, ◌≢◌, refl, ap, ap₂, ◌∙◌, List, [], ◌∷◌, pos, arith, ◌+ℤ◌, length,
}
use cmsc125_lab3_sabandal_sa.CInt.{int_half, add_int, add_int_exact}
use cmsc125_lab3_sabandal_sa.Transaction.{
  TxStatus, tx_running, tx_committed, tx_aborted, Transaction,
}
use cmsc125_lab3_sabandal_sa.Metrics.{Outcomes, count_outcome, count_outcomes}

abbrev if_committed : TxStatus → ℕ
if_committed tx_committed = 1
if_committed tx_aborted = 0
if_committed tx_running = 0

abbrev if_aborted : TxStatus → ℕ
if_aborted tx_committed = 0
if_aborted tx_aborted = 1
if_aborted tx_running = 0

abbrev pub committed_in : List Transaction → ℕ
committed_in [] = 0
committed_in (tx ∷ rest) = if_committed tx.status + committed_in rest

abbrev pub aborted_in : List Transaction → ℕ
aborted_in [] = 0
aborted_in (tx ∷ rest) = if_aborted tx.status + aborted_in rest

add_one : (n : ℕ) → suc n < int_half → add_int (pos n) (pos 1) ≡ pos (suc n)
unfolding ◌+ℤ◌
add_one n small = add_int_exact (pos n) (pos 1) (ground arith) ∙ ground arith

counted : ℕ → ℕ → Outcomes
counted c a = record { committed = pos c; aborted = pos a }

module _ (rest : List Transaction)
    (counts : (c a : ℕ)
      → c + a + length rest < int_half
      → count_outcomes rest (counted c a)
        ≡ counted (c + committed_in rest) (a + aborted_in rest)) where
  count_status :
      (status : TxStatus) (c a : ℕ)
      → suc (c + a + length rest) < int_half
      → count_outcomes rest (count_outcome status (counted c a))
        ≡ counted
            (c + (if_committed status + committed_in rest))
            (a + (if_aborted status + aborted_in rest))
  unfolding counted
  count_status tx_committed c a small =
      ap (λ n. count_outcomes rest (record { committed = n; aborted = pos a }))
        (add_one c (omega arith))
      ∙ counts (suc c) a (omega arith)
      ∙ ap₂ counted (omega arith) (omega arith)
  count_status tx_aborted c a small =
      ap (λ n. count_outcomes rest (record { committed = pos c; aborted = n }))
        (add_one a (omega arith))
      ∙ counts c (suc a) (omega arith)
      ∙ ap₂ counted (omega arith) (omega arith)
  count_status tx_running c a small =
      counts c a (omega arith) ∙ ap₂ counted (omega arith) (omega arith)

count_outcomes-from :
    (txs : List Transaction) (c a : ℕ)
    → c + a + length txs < int_half
    → count_outcomes txs (counted c a) ≡ counted (c + committed_in txs) (a + aborted_in txs)
unfolding count_outcomes
count_outcomes-from [] c a small = ap₂ counted (omega arith) (omega arith)
count_outcomes-from (tx ∷ rest) c a small =
    count_status rest (count_outcomes-from rest) tx.status c a (omega arith)

-- The loop counts exactly.
pub count_outcomes-eq :
    (txs : List Transaction)
    → length txs < int_half
    → count_outcomes txs (record { committed = pos 0; aborted = pos 0 })
      ≡ record { committed = pos (committed_in txs); aborted = pos (aborted_in txs) }
unfolding counted
count_outcomes-eq txs small =
    count_outcomes-from txs 0 0 (omega arith) ∙ ap₂ counted (omega arith) (omega arith)

abbrev pub NoneRunning : List Transaction → Type 0
NoneRunning [] = Unit
NoneRunning (tx ∷ rest) = (tx.status ≢ tx_running) × NoneRunning rest

one_or_other :
    (status : TxStatus) → status ≢ tx_running → if_committed status + if_aborted status ≡ 1
one_or_other tx_committed h = refl
one_or_other tx_aborted h = refl
one_or_other tx_running h = absurd (h refl)

pub counts_add_up :
    (txs : List Transaction) → NoneRunning txs → committed_in txs + aborted_in txs ≡ length txs
counts_add_up [] h = refl
counts_add_up (tx ∷ rest) h = omega (arith, one_or_other tx.status h.0, counts_add_up rest h.1)
