-- ===== src/Flow/Sums.antt =====
-- `compute_committed_external_flow` as an exact sum.
use cmsc125_lab3_sabandal_sa.Common.{
  ℕ, zero, suc, ◌+◌, ◌<◌, ◌≡◌, refl, sym, ap, ap₂, ◌∙◌, Bool, true, false, List, [], ◌∷◌, ℤ, pos,
  pos_part, neg_part, sub_ℕ, ◌+ℤ◌, ◌-ℤ◌, arith, length, take, ◌++◌, total, total-zero, total-suc,
  if◌then◌else◌, leb_ℤ,
}
use cmsc125_lab3_sabandal_sa.CInt.{long_half, add_long, add_long_exact, sub_long, sub_long_exact}
use cmsc125_lab3_sabandal_sa.Transaction.{
  OpType, op_deposit, op_withdraw, op_transfer, op_balance, Operation, TxStatus, tx_running,
  tx_committed, tx_aborted, Transaction,
}
use cmsc125_lab3_sabandal_sa.Transaction.Flow.{paid_in, taken_out, all_paid_in, all_taken_out}
use cmsc125_lab3_sabandal_sa.Flow.{
  add_flow, flow_of_ops, flow_of_transaction, flow_of_transactions, compute_committed_external_flow,
}

-- No amount is negative.
abbrev pub Positive : List Operation → Type 0
Positive [] = Unit
Positive (op ∷ ops) = (neg_part op.amount_centavos ≡ 0) × Positive ops

add_difference :
    (p q : ℕ) (a : ℤ)
    → neg_part a ≡ 0
    → p + pos_part a < long_half
    → q < long_half
    → add_long (sub_ℕ p q) a ≡ sub_ℕ (p + pos_part a) q
unfolding ◌+ℤ◌
add_difference p q a low small small' = add_long_exact (sub_ℕ p q) a (ground arith) ∙ ground arith

sub_difference :
    (p q : ℕ) (a : ℤ)
    → neg_part a ≡ 0
    → p < long_half
    → q + pos_part a < long_half
    → sub_long (sub_ℕ p q) a ≡ sub_ℕ p (q + pos_part a)
unfolding ◌-ℤ◌
sub_difference p q a low small small' = sub_long_exact (sub_ℕ p q) a (ground arith) ∙ ground arith

-- One operation. The bounds leave room for it.
add_flow-sum :
    (type : OpType) (a : ℤ) (p q : ℕ)
    → neg_part a ≡ 0
    → p + paid_in type a < long_half
    → q + taken_out type a < long_half
    → add_flow type a (sub_ℕ p q) ≡ sub_ℕ (p + paid_in type a) (q + taken_out type a)
add_flow-sum op_deposit a p q low small small' =
    add_difference p q a low small (omega arith) ∙ ap (sub_ℕ (p + pos_part a)) (omega arith)
add_flow-sum op_withdraw a p q low small small' =
    sub_difference p q a low (omega arith) small' ∙ ap (λ x. sub_ℕ x (q + pos_part a)) (omega arith)
add_flow-sum op_transfer a p q low small small' = ap₂ sub_ℕ (omega arith) (omega arith)
add_flow-sum op_balance a p q low small small' = ap₂ sub_ℕ (omega arith) (omega arith)

flow_of_ops-sum :
    (ops : List Operation) (p q : ℕ)
    → Positive ops
    → p + all_paid_in ops < long_half
    → q + all_taken_out ops < long_half
    → flow_of_ops ops (sub_ℕ p q) ≡ sub_ℕ (p + all_paid_in ops) (q + all_taken_out ops)
unfolding flow_of_ops
flow_of_ops-sum [] p q h small small' = ap₂ sub_ℕ (omega arith) (omega arith)
flow_of_ops-sum (op ∷ ops) p q h small small' =
    ap (flow_of_ops ops)
      (add_flow-sum op.type op.amount_centavos p q h.0 (omega arith) (omega arith))
    ∙ flow_of_ops-sum ops (p + paid_in op.type op.amount_centavos)
        (q + taken_out op.type op.amount_centavos) h.1 (omega arith) (omega arith)
    ∙ ap₂ sub_ℕ (omega arith) (omega arith)

-- What a transaction with this status counts for: nothing, unless it is committed.
abbrev pub paid_by : TxStatus → Transaction → ℕ
paid_by tx_committed tx = all_paid_in (take tx.num_ops tx.ops)
paid_by tx_running tx = 0
paid_by tx_aborted tx = 0

abbrev pub taken_by : TxStatus → Transaction → ℕ
taken_by tx_committed tx = all_taken_out (take tx.num_ops tx.ops)
taken_by tx_running tx = 0
taken_by tx_aborted tx = 0

-- The deposits of the committed transactions, and their withdrawals.
abbrev pub paid_of : List Transaction → ℕ
paid_of [] = 0
paid_of (tx ∷ rest) = paid_by tx.status tx + paid_of rest

abbrev pub taken_of : List Transaction → ℕ
taken_of [] = 0
taken_of (tx ∷ rest) = taken_by tx.status tx + taken_of rest

-- If it is committed, no amount in it is negative.
abbrev pub IsClean : TxStatus → Transaction → Type 0
IsClean tx_committed tx = Positive (take tx.num_ops tx.ops)
IsClean tx_running tx = Unit
IsClean tx_aborted tx = Unit

abbrev pub AllClean : List Transaction → Type 0
AllClean [] = Unit
AllClean (tx ∷ rest) = IsClean tx.status tx × AllClean rest

pub IsClean-of_Positive :
    (status : TxStatus) (tx : Transaction) → Positive (take tx.num_ops tx.ops) → IsClean status tx
IsClean-of_Positive tx_committed tx h = h
IsClean-of_Positive tx_running tx h = tt
IsClean-of_Positive tx_aborted tx h = tt

flow_of_transaction-sum :
    (status : TxStatus) (tx : Transaction) (p q : ℕ)
    → IsClean status tx
    → p + paid_by status tx < long_half
    → q + taken_by status tx < long_half
    → flow_of_transaction status tx (sub_ℕ p q)
      ≡ sub_ℕ (p + paid_by status tx) (q + taken_by status tx)
unfolding flow_of_transaction
flow_of_transaction-sum tx_committed tx p q h small small' =
    flow_of_ops-sum (take tx.num_ops tx.ops) p q h small small'
flow_of_transaction-sum tx_running tx p q h small small' = ap₂ sub_ℕ (omega arith) (omega arith)
flow_of_transaction-sum tx_aborted tx p q h small small' = ap₂ sub_ℕ (omega arith) (omega arith)

flow_of_transactions-sum :
    (txs : List Transaction) (p q : ℕ)
    → AllClean txs
    → p + paid_of txs < long_half
    → q + taken_of txs < long_half
    → flow_of_transactions txs (sub_ℕ p q) ≡ sub_ℕ (p + paid_of txs) (q + taken_of txs)
unfolding flow_of_transactions
flow_of_transactions-sum [] p q h small small' = ap₂ sub_ℕ (omega arith) (omega arith)
flow_of_transactions-sum (tx ∷ rest) p q h small small' =
    ap (flow_of_transactions rest)
      (flow_of_transaction-sum tx.status tx p q h.0 (omega arith) (omega arith))
    ∙ flow_of_transactions-sum rest (p + paid_by tx.status tx) (q + taken_by tx.status tx) h.1
        (omega arith) (omega arith)
    ∙ ap₂ sub_ℕ (omega arith) (omega arith)

-- The array of the first `n` transactions.
abbrev pub gather : ℕ → (ℕ → Transaction) → List Transaction
gather zero f = []
gather (suc n) f = gather n f ++ f n ∷ []

length-append :
    (xs : List Transaction) (tx : Transaction) → length (xs ++ tx ∷ []) ≡ suc (length xs)
length-append [] tx = refl
length-append (x ∷ xs) tx = ap suc (length-append xs tx)

paid-append :
    (xs : List Transaction) (tx : Transaction)
    → paid_of (xs ++ tx ∷ []) ≡ paid_of xs + paid_by tx.status tx
paid-append [] tx = omega arith
paid-append (x ∷ xs) tx = omega (arith, paid-append xs tx)

taken-append :
    (xs : List Transaction) (tx : Transaction)
    → taken_of (xs ++ tx ∷ []) ≡ taken_of xs + taken_by tx.status tx
taken-append [] tx = omega arith
taken-append (x ∷ xs) tx = omega (arith, taken-append xs tx)

clean-append :
    (xs : List Transaction) (tx : Transaction)
    → AllClean xs
    → IsClean tx.status tx
    → AllClean (xs ++ tx ∷ [])
clean-append [] tx h p = (p, tt)
clean-append (x ∷ xs) tx h p = (h.0, clean-append xs tx h.1 p)

pub length-gather : (n : ℕ) (f : ℕ → Transaction) → length (gather n f) ≡ n
length-gather zero f = refl
length-gather (suc n) f = length-append (gather n f) (f n) ∙ ap suc (length-gather n f)

pub paid-gather :
    (n : ℕ) (f : ℕ → Transaction) → paid_of (gather n f) ≡ total (λ tx. paid_by tx.status tx) n f
paid-gather zero f = sym (total-zero (λ tx. paid_by tx.status tx) f)
paid-gather (suc n) f = omega (
  arith,
  paid-append (gather n f) (f n),
  paid-gather n f,
  total-suc (λ (tx : Transaction). paid_by tx.status tx) n f,
)

pub taken-gather :
    (n : ℕ) (f : ℕ → Transaction) → taken_of (gather n f) ≡ total (λ tx. taken_by tx.status tx) n f
taken-gather zero f = sym (total-zero (λ tx. taken_by tx.status tx) f)
taken-gather (suc n) f = omega (
  arith,
  taken-append (gather n f) (f n),
  taken-gather n f,
  total-suc (λ (tx : Transaction). taken_by tx.status tx) n f,
)

pub clean-gather :
    (n : ℕ) (f : ℕ → Transaction)
    → ((i : ℕ) → i < n → IsClean (f i).status (f i))
    → AllClean (gather n f)
clean-gather zero f h = tt
clean-gather (suc n) f h =
    clean-append (gather n f) (f n) (clean-gather n f (λ i lt. h i (omega arith)))
      (h n (omega arith))

pub take_all : (xs : List Transaction) (n : ℕ) → length xs ≡ n → take n xs ≡ xs
take_all [] zero h = refl
take_all [] (suc n) h = refl
take_all (x ∷ xs) zero h = cc
take_all (x ∷ xs) (suc n) h = ap (x ∷◌) (take_all xs n (omega arith))

if-false : (b : Bool) (x y : ℤ) → b ≡ false → (if b then x else y) ≡ y
if-false true x y h = cc
if-false false x y h = refl

-- The committed flow is exact. If no committed transaction has a negative amount, and the deposits
-- and the withdrawals of the committed transactions each fit into a `long` together, then
-- `compute_committed_external_flow` gives these deposits less these withdrawals. Transactions that
-- are aborted or still running count for nothing, whatever their amounts.
pub compute_committed_external_flow-eq :
    (n : ℕ) (f : ℕ → Transaction)
    → AllClean (gather n f)
    → paid_of (gather n f) < long_half
    → taken_of (gather n f) < long_half
    → compute_committed_external_flow (gather n f) (pos n)
      ≡ sub_ℕ (paid_of (gather n f)) (taken_of (gather n f))
unfolding compute_committed_external_flow flow_of_transactions
compute_committed_external_flow-eq zero f h small small' = refl
compute_committed_external_flow-eq (suc n) f h small small' =
    if-false (leb_ℤ (pos (suc n)) (pos 0)) _ _ (ground arith)
    ∙ ap (λ txs. flow_of_transactions txs (pos 0))
        (take_all (gather (suc n) f) (suc n) (length-gather (suc n) f))
    ∙ flow_of_transactions-sum (gather (suc n) f) 0 0 h (omega arith) (omega arith)
    ∙ ap₂ sub_ℕ (omega arith) (omega arith)
