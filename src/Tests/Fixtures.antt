-- ===== src/Tests/Fixtures.antt =====
-- A bank of two accounts, two transactions, and the memory before their threads start.
use cmsc125_lab3_sabandal_sa.Common.{
  ℕ, zero, suc, ◌≤◌, ◌≡◌, refl, true, false, some, List, [], ◌∷◌, ℤ, pos, negsuc, neg_part, arith,
  length, get_elem?, replicate, ◌≤ℤ◌, ◌⊎◌, inl, inr, total,
}
use cmsc125_lab3_sabandal_sa.CInt.{IsInt}
use cmsc125_lab3_sabandal_sa.RwLock.{open_lock}
use cmsc125_lab3_sabandal_sa.Bank.{Account, Bank}
use cmsc125_lab3_sabandal_sa.Bank.Lookup.{IsSlot, IsValid}
use cmsc125_lab3_sabandal_sa.BufferPool.{init_buffer_pool, zeroed_pool}
use cmsc125_lab3_sabandal_sa.Machine.{Shared}
use cmsc125_lab3_sabandal_sa.Transaction.{
  op_deposit, op_withdraw, op_transfer, op_balance, Operation, tx_running, Transaction,
}
use cmsc125_lab3_sabandal_sa.Threads.Launch.{IsReady}

abbrev pub account : ℤ → ℤ → Account
account id balance = record { account_id = id; balance_centavos = balance; lock = open_lock }

abbrev unused_account : Account
unused_account = account (negsuc 0) (pos 0)

abbrev pub alice : Account
alice = account (pos 1) (pos 1000)

abbrev bob : Account
bob = account (pos 2) (pos 500)

abbrev pub small_bank : Bank
small_bank = record {
  accounts = alice ∷ bob ∷ replicate 98 unused_account;
  num_accounts = 2;
  bank_lock = false;
}

abbrev operations : List Operation → ℤ → Transaction
operations ops id = record {
  tx_id = id;
  ops = ops;
  num_ops = length ops;
  start_tick = pos 0;
  thread = 1;
  actual_start = negsuc 0;
  actual_end = negsuc 0;
  wait_ticks = pos 0;
  status = tx_running;
}

-- Alice gets 200 and sends 100 to Bob.
abbrev pub first_transaction : Transaction
first_transaction =
    operations
      (record {
        type = op_deposit;
        account_id = pos 1;
        amount_centavos = pos 200;
        target_account = negsuc 0;
      }
        ∷ record {
          type = op_transfer;
          account_id = pos 1;
          amount_centavos = pos 100;
          target_account = pos 2;
        }
        ∷ [])
      (pos 1)

-- Bob takes 50 and Alice's balance is read.
abbrev pub second_transaction : Transaction
second_transaction =
    operations
      (record {
        type = op_withdraw;
        account_id = pos 2;
        amount_centavos = pos 50;
        target_account = negsuc 0;
      }
        ∷ record {
          type = op_balance;
          account_id = pos 1;
          amount_centavos = pos 0;
          target_account = negsuc 0;
        }
        ∷ [])
      (pos 2)

abbrev pub two_transactions : ℕ → Transaction
two_transactions zero = first_transaction
two_transactions (suc i) = second_transaction

abbrev pub small_memory : Shared
small_memory = record {
  bank = small_bank;
  pool = init_buffer_pool zeroed_pool;
  global_tick = pos 0;
  simulation_running = true;
  output = [];
}

get_elem?-replicate : (n k : ℕ) (x a : Account) → get_elem? (replicate n x) k ≡ some a → a ≡ x
get_elem?-replicate zero k x a h = cc
get_elem?-replicate (suc n) zero x a h = ground arith
get_elem?-replicate (suc n) (suc k) x a h = get_elem?-replicate n k x a h

-- Every slot holds one of the three kinds of account.
slot_kind :
    (k : ℕ) (a : Account)
    → get_elem? small_bank.accounts k ≡ some a
    → ((k ≡ 0) × (a ≡ alice)) ⊎ (((k ≡ 1) × (a ≡ bob)) ⊎ ((2 ≤ k) × (a ≡ unused_account)))
slot_kind zero a h = inl (refl, ground arith)
slot_kind (suc zero) a h = inr (inl (refl, ground arith))
slot_kind (suc (suc k)) a h = inr (inr (omega arith, get_elem?-replicate 98 k unused_account a h))

for_slots :
    (P : Account → Type 0) (k : ℕ) (a : Account)
    → get_elem? small_bank.accounts k ≡ some a
    → P alice
    → P bob
    → P unused_account
    → P a
for_slots P k a h p q r = elim (slot_kind k a h) [
  | inl (at, e) ↦ rw e p
  | inr (inl (at, e)) ↦ rw e q
  | inr (inr (at, e)) ↦ rw e r
]

slot-id : (i : ℕ) (a : Account) → IsSlot small_bank i a → a.account_id ≡ pos (suc i)
slot-id i a slot = elim (slot_kind i a slot.entry) [
  | inl (at, e) ↦ rw (at, e) refl
  | inr (inl (at, e)) ↦ rw (at, e) refl
  | inr (inr (at, e)) ↦ absurd (omega (arith, slot.in_use))
]

pub small_bank-IsValid : IsValid small_bank
small_bank-IsValid = record {
  size = refl;
  bounded = omega arith;
  id_nonneg = λ i a slot. elim (slot_kind i a slot.entry) [
    | inl (at, e) ↦ rw e (omega arith)
    | inr (inl (at, e)) ↦ rw e (omega arith)
    | inr (inr (at, e)) ↦ absurd (omega (arith, slot.in_use))
  ];
  balance_nonneg = λ i a slot.
      for_slots (λ x. pos 0 ≤ℤ x.balance_centavos) i a slot.entry (omega arith) (omega arith)
        (omega arith);
  balance_int = λ i a slot.
      for_slots (λ x. IsInt x.balance_centavos) i a slot.entry (omega arith, omega arith)
        (omega arith, omega arith) (omega arith, omega arith);
  distinct = λ i j a b slot other same. ground (arith, slot-id i a slot, slot-id j b other);
}

pub small-IsReady : IsReady 2 two_transactions small_memory
unfolding total
small-IsReady = record {
  valid = small_bank-IsValid;
  nonneg = λ k a e. for_slots (λ x. neg_part x.balance_centavos ≡ 0) k a e refl refl refl;
  blank = λ k a le e. elim (slot_kind k a e) [
    | inl (at, _) ↦ absurd (omega arith)
    | inr (inl (at, _)) ↦ absurd (omega arith)
    | inr (inr (at, same)) ↦ rw same refl
  ];
  unlocked = λ k a e. for_slots (λ x. x.lock ≡ open_lock) k a e refl refl refl;
  empty_pool = refl;
  small = omega arith;
}

-- The same transactions, to start at tick 5.
abbrev pub late_transactions : ℕ → Transaction
late_transactions i = record (two_transactions i) { start_tick = pos 5 }

pub late-IsReady : IsReady 2 late_transactions small_memory
unfolding total
late-IsReady = record {
  valid = small_bank-IsValid;
  nonneg = small-IsReady.nonneg;
  blank = small-IsReady.blank;
  unlocked = small-IsReady.unlocked;
  empty_pool = refl;
  small = omega arith;
}
