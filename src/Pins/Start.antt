-- ===== src/Pins/Start.antt =====
-- The threads start without a pin, and keep to theirs.
use cmsc125_lab3_sabandal_sa.Common.{
  ℕ, suc, ◌≤◌, length, ==ℤ-refl, ◌<◌, ◌≡◌, refl, sym, ◌∙◌, List, [], ◌∷◌, ℤ, arith, total-eq-zero,
}
use cmsc125_lab3_sabandal_sa.CInt.{int_half}
use cmsc125_lab3_sabandal_sa.BufferPool.{init_buffer_pool, init_buffer_slots, zeroed_pool}
use cmsc125_lab3_sabandal_sa.Machine.{Shared}
use cmsc125_lab3_sabandal_sa.Transaction.{Transaction}
use cmsc125_lab3_sabandal_sa.Threads.{Turn, run, launch}
use cmsc125_lab3_sabandal_sa.Threads.Launch.{IsReady, supply_of, GoalOf, launch-Safe}
use cmsc125_lab3_sabandal_sa.Pins.{Pins}
use cmsc125_lab3_sabandal_sa.Pins.Slots.{pins_in, SlotsOk}
use cmsc125_lab3_sabandal_sa.Pins.Workers.{execute_transaction-NonePinned}
use cmsc125_lab3_sabandal_sa.Pins.Turns.{Pinned, run-Pinned}
use cmsc125_lab3_sabandal_sa.Serial.Room.{Names, AllNamed}
use cmsc125_lab3_sabandal_sa.Transaction.{
  OpType, op_deposit, op_withdraw, op_transfer, op_balance, Operation,
}
use cmsc125_lab3_sabandal_sa.Threads.Launch.{ops_of}

zeroed-SlotsOk : SlotsOk (init_buffer_pool zeroed_pool).slots
unfolding init_buffer_pool init_buffer_slots
zeroed-SlotsOk = ((λ u. cc), ((λ u. cc), ((λ u. cc), ((λ u. cc), ((λ u. cc), tt)))))

zeroed-pins_in : (j : ℤ) → pins_in (init_buffer_pool zeroed_pool).slots j ≡ 0
unfolding init_buffer_pool init_buffer_slots
zeroed-pins_in j = refl

-- Thread `i` names the accounts of `needed i` only, and `rooms i` are these but one at least.
module _ (n : ℕ) (transactions : ℕ → Transaction) (m : Shared) (ready : IsReady n transactions m)
    (small : n < int_half) (rooms : ℕ → ℕ) (needed : ℕ → List ℤ)
    (few : (i : ℕ) → i < n → length (needed i) ≤ suc (rooms i))
    (names : (i : ℕ) → i < n → AllNamed (needed i) (ops_of (transactions i))) where
  launch-Pinned : Pinned n rooms (launch transactions m)
  unfolding launch
  launch-Pinned = record {
    pins = λ i j. 0;
    slots = record {
      ok = rw ready.empty_pool zeroed-SlotsOk;
      counted = λ j.
          rw ready.empty_pool (
            zeroed-pins_in j ∙ sym (total-eq-zero (λ (p : Pins). p j) n (λ i j. 0) (λ i lt. refl)));
      once = λ i j lt. omega arith;
    };
    keeps = λ i lt.
        execute_transaction-NonePinned (rooms i) (needed i) (few i lt) m.bank (transactions i)
          (names i lt);
  }

  pub reachable-Pinned : (ts : List Turn) → Pinned n rooms (run n (launch transactions m) ts)
  reachable-Pinned ts =
      run-Pinned n rooms small m.bank (supply_of n transactions m) (GoalOf transactions)
        (launch transactions m) ts (launch-Safe n transactions m ready) launch-Pinned

-- All the accounts that operations name.
abbrev pub named_in : List Operation → List ℤ
named_in [] = []
named_in (op ∷ ops) = op.account_id ∷ op.target_account ∷ named_in ops

Names-more :
    (x : ℤ) (needed : List ℤ) (op : Operation) (type : OpType)
    → Names needed op type
    → Names (x ∷ needed) op type
Names-more x needed op op_transfer (h, g) = (ground arith, ground arith)
Names-more x needed op op_deposit h = ground arith
Names-more x needed op op_withdraw h = ground arith
Names-more x needed op op_balance h = ground arith

AllNamed-more :
    (x : ℤ) (needed : List ℤ) (ops : List Operation)
    → AllNamed needed ops
    → AllNamed (x ∷ needed) ops
AllNamed-more x needed [] h = tt
AllNamed-more x needed (op ∷ ops) (h, rest) =
    (Names-more x needed op op.type h, AllNamed-more x needed ops rest)

Names-own :
    (needed : List ℤ) (op : Operation) (type : OpType)
    → Names (op.account_id ∷ op.target_account ∷ needed) op type
Names-own needed op op_transfer =
    (ground (arith, ==ℤ-refl op.account_id), ground (arith, ==ℤ-refl op.target_account))
Names-own needed op op_deposit = ground (arith, ==ℤ-refl op.account_id)
Names-own needed op op_withdraw = ground (arith, ==ℤ-refl op.account_id)
Names-own needed op op_balance = ground (arith, ==ℤ-refl op.account_id)

pub AllNamed-named_in : (ops : List Operation) → AllNamed (named_in ops) ops
AllNamed-named_in [] = tt
AllNamed-named_in (op ∷ ops) = (
  Names-own (named_in ops) op op.type,
  AllNamed-more op.account_id (op.target_account ∷ named_in ops) ops
      (AllNamed-more op.target_account (named_in ops) ops (AllNamed-named_in ops)),
)
