-- ===== src/Pins/Operations.antt =====
-- The operations of `execute_transaction` of src/core/transaction.c: a thread pins exactly the
-- accounts on its list.
use cmsc125_lab3_sabandal_sa.Common.{
  ℕ, suc, ◌≤◌, ◌≡◌, sym, ap, ◌∙◌, subst, inl, inr, Bool, true, false, some, List, ◌∷◌, ℤ, pos,
  arith, leb, ltb_ℤ, length, if◌then◌else◌, Bool-cases, Option-cases,
}
use cmsc125_lab3_sabandal_sa.Bank.{Bank, get_account}
use cmsc125_lab3_sabandal_sa.Bank.Money.{get_balance, deposit, withdraw, transfer}
use cmsc125_lab3_sabandal_sa.BufferPool.Calls.{load_account}
use cmsc125_lab3_sabandal_sa.LockMgr.{slot_id}
use cmsc125_lab3_sabandal_sa.Machine.{Prog, ret, ◌>>=◌}
use cmsc125_lab3_sabandal_sa.Transaction.{
  OpType, op_deposit, op_withdraw, op_transfer, op_balance, Operation,
}
use cmsc125_lab3_sabandal_sa.Transaction.Execute.{
  max_loaded_accounts, transaction_has_loaded_account, load_found, load_account_for_transaction,
  load_both, perform_deposit, perform_withdraw, perform_transfer, perform_balance, run_operation,
}
use cmsc125_lab3_sabandal_sa.Serial.{one, is_among}
use cmsc125_lab3_sabandal_sa.Serial.Pool.{occurrences}
use cmsc125_lab3_sabandal_sa.Serial.Loading.{occurrences_absent, transaction_has_loaded_account-eq}
use cmsc125_lab3_sabandal_sa.Serial.Mirror.{get_account-slot_id}
use cmsc125_lab3_sabandal_sa.Serial.Room.{Within, Within-cons, covered-le, Names}
use cmsc125_lab3_sabandal_sa.Pins.{Pins, KeepsPins, KeepsPins-bind, Unpinned, Unpinned-KeepsPins}
use cmsc125_lab3_sabandal_sa.Pins.Code.{
  Added, deposit-Unpinned, withdraw-Unpinned, transfer-Unpinned, get_balance-Unpinned,
  load_account-KeepsPins,
}

-- The pins are those of the loaded accounts.
abbrev pub PinnedBy : List ℤ → Pins → Type 0
PinnedBy loaded p = (j : ℤ) → p j ≡ occurrences loaded j

absent_lem :
    (loaded : List ℤ) (id : ℤ)
    → transaction_has_loaded_account loaded id ≡ false
    → occurrences loaded id ≡ 0
absent_lem loaded id h =
    occurrences_absent loaded id (sym (transaction_has_loaded_account-eq loaded id) ∙ h)

-- A new account is one of the needed ones, so there are fewer loaded ones.
room_left :
    (room : ℕ) (needed : List ℤ) (a : ℤ) (loaded : List ℤ)
    → Within needed (a ∷ loaded)
    → length needed ≤ suc room
    → length loaded ≤ room
room_left room needed a loaded w few =
    omega (arith, w.counted, covered-le needed (a ∷ loaded) w.once)

-- And the loaded accounts are among the needed ones.
abbrev pub HeldBy : List ℤ → List ℤ → Pins → Type 0
HeldBy needed loaded p = PinnedBy loaded p × Within needed loaded

-- What a step on accounts leaves.
abbrev pub Holding : List ℤ → Bool × List ℤ → Pins → Type 0
Holding needed (ok, loaded) p = HeldBy needed loaded p

pub KeepsPins-if :
    {A : Type 0} (room : ℕ) (Q : A → Pins → Type 0) (p : Pins) (b : Bool) (x y : Prog A)
    → KeepsPins room p x Q
    → KeepsPins room p y Q
    → KeepsPins room p (if b then x else y) Q
KeepsPins-if room Q p true x y h g = h
KeepsPins-if room Q p false x y h g = g

module _ (room : ℕ) (needed : List ℤ) (few : length needed ≤ suc room) (bank : Bank) where
  load_for-Holding :
      (p : Pins) (loaded : List ℤ) (id : ℤ)
      → is_among needed id ≡ true
      → HeldBy needed loaded p
      → KeepsPins room p (load_account_for_transaction bank loaded id) (Holding needed)
  unfolding load_account_for_transaction load_found
  load_for-Holding p loaded id needs h =
      elim (Bool-cases (transaction_has_loaded_account loaded id)) [
        | inl old ↦ rw old h
        | inr new ↦ rw new (elim (Bool-cases (leb max_loaded_accounts (length loaded))) [
          | inl full ↦ rw full h
          | inr free ↦ rw free (elim (Option-cases (get_account bank id)) [
            | inl e ↦ rw e h
            | inr (i, e) ↦ rw e (loaded_lem i e new)
          ])
        ])
      ]
    where
      loaded_lem :
          (i : ℕ)
          → get_account bank id ≡ some i
          → transaction_has_loaded_account loaded id ≡ false
          → KeepsPins room p
              (load_account bank (some i) >>= λ _. ret (true, id ∷ loaded))
              (Holding needed)
      loaded_lem i e new =
          let at = get_account-slot_id bank id i e in
          let within =
            Within-cons needed id loaded h.1 needs
              (sym (transaction_has_loaded_account-eq loaded id) ∙ new) in
          KeepsPins-bind room (Added p (slot_id bank i)) (Holding needed) p
            (load_account bank (some i)) (λ _. ret (true, id ∷ loaded))
            (load_account-KeepsPins room bank p i
              (loaded, room_left room needed id loaded within few, h.0)
              (ap p at ∙ h.0 id ∙ absent_lem loaded id new))
            (λ _ p' added. ((λ j. omega (arith, added j, h.0 j, ap (λ x. one x j) at)), within))

  load_both-Holding :
      (p : Pins) (loaded : List ℤ) (from_id to_id : ℤ)
      → is_among needed from_id ≡ true
      → is_among needed to_id ≡ true
      → HeldBy needed loaded p
      → KeepsPins room p (load_both bank loaded from_id to_id) (Holding needed)
  unfolding load_both
  load_both-Holding p loaded from_id to_id needs needs' h =
      KeepsPins-bind room (Holding needed) (Holding needed) p
        (load_account_for_transaction bank loaded from_id) _
        (load_for-Holding p loaded from_id needs h) (λ (ok, loaded') p' h'. second ok loaded' p' h')
    where
      second :
          (ok : Bool) (loaded' : List ℤ) (p' : Pins)
          → HeldBy needed loaded' p'
          → KeepsPins room p'
              (if ok then load_account_for_transaction bank loaded' to_id else ret (false, loaded'))
              (Holding needed)
      second true loaded' p' h' = load_for-Holding p' loaded' to_id needs' h'
      second false loaded' p' h' = h'

  -- Code that pins nothing, in front of a result with the loaded accounts.
  quiet-Holding :
      {A : Type 0} (p : Pins) (loaded : List ℤ) (code : Prog A) (f : A → Prog (Bool × List ℤ))
      → HeldBy needed loaded p
      → Unpinned code
      → ((x : A) → KeepsPins room p (f x) (Holding needed))
      → KeepsPins room p (code >>= f) (Holding needed)
  quiet-Holding p loaded code f h quiet after =
      KeepsPins-bind room (λ _ p'. p' ≡ p) (Holding needed) p code f
        (Unpinned-KeepsPins room p code quiet)
        (λ x p' same. subst (λ q. KeepsPins room q (f x) (Holding needed)) (sym same) (after x))

  module _ (tx_id : ℤ) (op : Operation) where
    deposit-Holding :
        (ok : Bool) (loaded : List ℤ) (p : Pins)
        → HeldBy needed loaded p
        → KeepsPins room p (perform_deposit bank op (ok, loaded)) (Holding needed)
    unfolding perform_deposit
    deposit-Holding false loaded p h = h
    deposit-Holding true loaded p h =
        quiet-Holding p loaded (deposit bank op.account_id op.amount_centavos)
          (λ _. ret (true, loaded)) h (deposit-Unpinned bank op.account_id op.amount_centavos)
          (λ x. h)

    withdraw-Holding :
        (ok : Bool) (loaded : List ℤ) (p : Pins)
        → HeldBy needed loaded p
        → KeepsPins room p (perform_withdraw bank op (ok, loaded)) (Holding needed)
    unfolding perform_withdraw
    withdraw-Holding false loaded p h = h
    withdraw-Holding true loaded p h =
        quiet-Holding p loaded (withdraw bank op.account_id op.amount_centavos)
          (λ done. ret (done, loaded)) h (withdraw-Unpinned bank op.account_id op.amount_centavos)
          (λ x. h)

    transfer-Holding :
        (ok : Bool) (loaded : List ℤ) (p : Pins)
        → HeldBy needed loaded p
        → KeepsPins room p (perform_transfer bank op (ok, loaded)) (Holding needed)
    unfolding perform_transfer
    transfer-Holding false loaded p h = h
    transfer-Holding true loaded p h =
        quiet-Holding p loaded (transfer bank op.account_id op.target_account op.amount_centavos)
          (λ done. ret (done, loaded)) h
          (transfer-Unpinned bank op.account_id op.target_account op.amount_centavos) (λ x. h)

    balance-Holding :
        (ok : Bool) (loaded : List ℤ) (p : Pins)
        → HeldBy needed loaded p
        → KeepsPins room p (perform_balance bank tx_id op (ok, loaded)) (Holding needed)
    unfolding perform_balance
    balance-Holding false loaded p h = h
    balance-Holding true loaded p h =
        quiet-Holding p loaded (get_balance bank op.account_id) _ h
          (get_balance-Unpinned bank op.account_id)
          (λ balance.
            KeepsPins-if room (Holding needed) p (ltb_ℤ balance (pos 0)) (ret (false, loaded)) _ h
              (tt, λ _ _. h))

    -- An operation keeps the pins those of the loaded accounts.
    pub run_operation-Holding :
        (type : OpType) (p : Pins) (loaded : List ℤ)
        → Names needed op type
        → HeldBy needed loaded p
        → KeepsPins room p (run_operation bank tx_id op type loaded) (Holding needed)
    unfolding run_operation
    run_operation-Holding op_deposit p loaded names h =
        KeepsPins-bind room (Holding needed) (Holding needed) p
          (load_account_for_transaction bank loaded op.account_id) (perform_deposit bank op)
          (load_for-Holding p loaded op.account_id names h)
          (λ (ok, loaded') p' h'. deposit-Holding ok loaded' p' h')
    run_operation-Holding op_withdraw p loaded names h =
        KeepsPins-bind room (Holding needed) (Holding needed) p
          (load_account_for_transaction bank loaded op.account_id) (perform_withdraw bank op)
          (load_for-Holding p loaded op.account_id names h)
          (λ (ok, loaded') p' h'. withdraw-Holding ok loaded' p' h')
    run_operation-Holding op_transfer p loaded (names, target_names) h =
        KeepsPins-bind room (Holding needed) (Holding needed) p
          (load_both bank loaded op.account_id op.target_account) (perform_transfer bank op)
          (load_both-Holding p loaded op.account_id op.target_account names target_names h)
          (λ (ok, loaded') p' h'. transfer-Holding ok loaded' p' h')
    run_operation-Holding op_balance p loaded names h =
        KeepsPins-bind room (Holding needed) (Holding needed) p
          (load_account_for_transaction bank loaded op.account_id) (perform_balance bank tx_id op)
          (load_for-Holding p loaded op.account_id names h)
          (λ (ok, loaded') p' h'. balance-Holding ok loaded' p' h')
