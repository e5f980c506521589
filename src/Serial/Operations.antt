-- ===== src/Serial/Operations.antt =====
-- One operation of a transaction that runs alone, on accounts that are loaded, against the same
-- operation on the ledger.
use cmsc125_lab3_sabandal_sa.Common.{
  ℕ, ◌≡◌, ◌≢◌, refl, ap, ◌∙◌, inl, inr, Bool, true, false, ◌||◌, Option, none, some, Option-cases,
  List, ◌∷◌, ℤ, pos, arith, ltb_ℤ, ◌==ℤ◌, Bool-cases, if◌then◌else◌,
}
use cmsc125_lab3_sabandal_sa.CInt.{add_int, sub_int}
use cmsc125_lab3_sabandal_sa.Bank.{Bank, get_account}
use cmsc125_lab3_sabandal_sa.Bank.Money.{
  read_balance, get_balance, put_in, deposit, take_out, withdraw, move, transfer,
}
use cmsc125_lab3_sabandal_sa.LockMgr.{validate_accounts}
use cmsc125_lab3_sabandal_sa.Machine.{
  Printed, Shared, print_balance, perform, Prog, ret, access, exec, ◌>>=◌, ◌>>◌,
}
use cmsc125_lab3_sabandal_sa.Machine.Exec.{exec-call, exec-ret, exec-bind}
use cmsc125_lab3_sabandal_sa.Transaction.{Operation}
use cmsc125_lab3_sabandal_sa.Transaction.Execute.{
  perform_deposit, perform_withdraw, perform_transfer, perform_balance,
}
use cmsc125_lab3_sabandal_sa.Serial.{
  Ledger, set_balance, deposit_to, withdraw_from, transfer_between, inquire,
}
use cmsc125_lab3_sabandal_sa.Serial.Money.{
  settle, put_in-end, read_balance-end, take_out-short, take_out-end,
}
use cmsc125_lab3_sabandal_sa.Serial.Transfer.{move-short, move-end}
use cmsc125_lab3_sabandal_sa.Serial.Mirror.{
  Mirrors, get_account-apart, entry_of, missing, settle-Mirrors,
}

module _ (bank : Bank) (now : ℤ) (loaded : List ℤ) (l : Ledger) (m : Shared)
    (mirror : Mirrors bank now loaded l m) (op : Operation) where
  -- The run ends with the flag and the ledger that are given.
  abbrev pub Does : Prog (Bool × List ℤ) → Bool × Ledger → Type 0
  Does p (ok, l') =
      (m' : Shared) × (exec p m ≡ some ((ok, loaded), m')) × Mirrors bank now loaded l' m'

  -- The result of a call is passed on with the loaded accounts.
  passed_on :
      (p : Prog Bool) (ok : Bool) (m' : Shared) (l' : Ledger)
      → exec p m ≡ some (ok, m')
      → Mirrors bank now loaded l' m'
      → Does (p >>= λ done. ret (done, loaded)) (ok, l')
  passed_on p ok m' l' e mirror' =
      (m', exec-bind p (λ done. ret (done, loaded)) m m' ok e ∙ exec-ret (ok, loaded) m', mirror')

  pub deposit-Does :
      Does
        (perform_deposit bank op (true, loaded))
        (deposit_to l op.account_id op.amount_centavos (l.balances op.account_id))
  unfolding perform_deposit deposit put_in
  deposit-Does = elim (Bool-cases (ltb_ℤ op.amount_centavos (pos 0))) [
    | inl e ↦ elim (Option-cases (get_account bank op.account_id)) [
      | inl h ↦
          rw (e, missing bank now loaded l m mirror op.account_id h)
            (m, exec-ret (true, loaded) m, mirror)
      | inr (i, h) ↦
          let (a, entry, idle, balance) = entry_of bank now loaded l m mirror op.account_id i h in
          rw (balance, e) (m, exec-ret (true, loaded) m, mirror)
    ]
    | inr e ↦ elim (Option-cases (get_account bank op.account_id)) [
      | inl h ↦
          rw (e, missing bank now loaded l m mirror op.account_id h, h)
            (m, exec-ret (true, loaded) m, mirror)
      | inr (i, h) ↦
          let (a, entry, idle, balance) = entry_of bank now loaded l m mirror op.account_id i h in
          let v = add_int a.balance_centavos op.amount_centavos in
          rw (balance, h, e)
            (
              settle i v m,
              exec-bind (put_in (some i) op.amount_centavos) (λ r. ret (true, loaded)) m
                    (settle i v m) tt (put_in-end m i a entry idle op.amount_centavos)
                  ∙ exec-ret (true, loaded) (settle i v m),
              settle-Mirrors bank now loaded l m mirror op.account_id i h v,
            )
    ]
  ]

  pub withdraw-Does :
      Does
        (perform_withdraw bank op (true, loaded))
        (withdraw_from l op.account_id op.amount_centavos (l.balances op.account_id))
  unfolding perform_withdraw withdraw take_out
  withdraw-Does = elim (Option-cases (get_account bank op.account_id)) [
    | inl h ↦ elim (Bool-cases (ltb_ℤ op.amount_centavos (pos 0))) [
      | inl e ↦
          rw (e, missing bank now loaded l m mirror op.account_id h)
            (m, exec-ret (false, loaded) m, mirror)
      | inr e ↦
          rw (e, missing bank now loaded l m mirror op.account_id h, h)
            (m, exec-ret (false, loaded) m, mirror)
    ]
    | inr (i, h) ↦
        let (a, entry, idle, balance) = entry_of bank now loaded l m mirror op.account_id i h in
        elim (Bool-cases (ltb_ℤ op.amount_centavos (pos 0))) [
          | inl e ↦ rw (balance, e) (m, exec-ret (false, loaded) m, mirror)
          | inr e ↦ elim (Bool-cases (ltb_ℤ a.balance_centavos op.amount_centavos)) [
            | inl short ↦
                rw (balance, h, e, short)
                  (passed_on (take_out (some i) op.amount_centavos) false m l
                    (take_out-short m i a entry idle op.amount_centavos short) mirror)
            | inr enough ↦
                let v = sub_int a.balance_centavos op.amount_centavos in
                rw (balance, h, e, enough)
                  (passed_on (take_out (some i) op.amount_centavos) true (settle i v m)
                    (set_balance l op.account_id v)
                    (take_out-end m i a entry idle op.amount_centavos enough)
                    (settle-Mirrors bank now loaded l m mirror op.account_id i h v))
          ]
        ]
  ]

  abbrev inquiry : ℤ → ℤ → Printed
  inquiry tx_id balance = record { tx_id = tx_id; account_id = op.account_id; balance = balance }

  -- What follows the reading of the balance.
  abbrev reported : ℤ → ℤ → Prog (Bool × List ℤ)
  reported tx_id balance =
      if ltb_ℤ balance (pos 0)
      then ret (false, loaded)
      else do access (print_balance (inquiry tx_id balance)); ret (true, loaded)

  print-Mirrors :
      (line : Printed)
      → Mirrors bank now loaded
          (record l { printed = line ∷ l.printed })
          (record m { output = line ∷ m.output })
  print-Mirrors line = record {
    size = mirror.size;
    opened = mirror.opened;
    pool = mirror.pool;
    clock = mirror.clock;
    balances = mirror.balances;
    output = ap (line ∷◌) mirror.output;
  }

  pub balance-Does :
      (tx_id : ℤ)
      → Does
          (perform_balance bank tx_id op (true, loaded))
          (inquire l tx_id op.account_id (l.balances op.account_id))
  unfolding perform_balance get_balance read_balance perform
  balance-Does tx_id = elim (Option-cases (get_account bank op.account_id)) [
    | inl h ↦
        rw (missing bank now loaded l m mirror op.account_id h, h)
          (m, exec-ret (false, loaded) m, mirror)
    | inr (i, h) ↦
        let (a, entry, idle, balance) = entry_of bank now loaded l m mirror op.account_id i h in
        let b = a.balance_centavos in
        let line = inquiry tx_id b in
        let seen : exec (read_balance (some i) >>= reported tx_id) m ≡ exec (reported tx_id b) m =
          exec-bind (read_balance (some i)) (reported tx_id) m m b
            (read_balance-end m i a entry idle) in
        elim (Bool-cases (ltb_ℤ b (pos 0))) [
          | inl e ↦ rw (balance, h, e) (m, seen ∙ rw e (exec-ret (false, loaded) m), mirror)
          | inr e ↦
              rw (balance, h, e)
                (
                  record m { output = line ∷ m.output },
                  seen
                      ∙ rw e (
                          exec-call (print_balance line) (λ r. ret (true, loaded)) m
                            (record m { output = line ∷ m.output }) tt refl
                          ∙ exec-ret (true, loaded) (record m { output = line ∷ m.output })),
                  print-Mirrors line,
                )
        ]
  ]

  move-none : (to_acc : Option ℕ) → move bank none to_acc op.amount_centavos ≡ ret false
  unfolding move validate_accounts
  move-none to_acc = refl

  move_to_none : (i : ℕ) → move bank (some i) none op.amount_centavos ≡ ret false
  unfolding move validate_accounts
  move_to_none i = refl

  abbrev refused : Bool
  refused = ltb_ℤ op.amount_centavos (pos 0) || op.account_id ==ℤ op.target_account

  abbrev spec : Option ℤ → Option ℤ → Bool × Ledger
  spec x y = transfer_between l op.account_id op.target_account op.amount_centavos x y

  transfer_between-refused : (x y : Option ℤ) → refused ≡ true → spec x y ≡ (false, l)
  transfer_between-refused none y h = refl
  transfer_between-refused (some b) none h = refl
  transfer_between-refused (some b) (some d) h = rw h refl

  -- The transfer, once it is not refused.
  moved-Does :
      (o p : Option ℕ)
      → refused ≡ false
      → get_account bank op.account_id ≡ o
      → get_account bank op.target_account ≡ p
      → Does
          (move bank o p op.amount_centavos >>= λ done. ret (done, loaded))
          (spec (l.balances op.account_id) (l.balances op.target_account))
  moved-Does none p ok h h' =
      rw (missing bank now loaded l m mirror op.account_id h, move-none p)
        (m, exec-ret (false, loaded) m, mirror)
  moved-Does (some i) none ok h h' =
      let (a, entry, idle, balance) = entry_of bank now loaded l m mirror op.account_id i h in
      rw (balance, missing bank now loaded l m mirror op.target_account h', move_to_none i)
        (m, exec-ret (false, loaded) m, mirror)
  moved-Does (some i) (some j) ok h h' =
      let (a, entry, idle, balance) = entry_of bank now loaded l m mirror op.account_id i h in
      let (b, entry', idle', balance') =
        entry_of bank now loaded l m mirror op.target_account j h' in
      let v = sub_int a.balance_centavos op.amount_centavos in
      let w = add_int b.balance_centavos op.amount_centavos in
      let apart : i ≢ j =
        get_account-apart bank op.account_id i op.target_account j h h' (ground arith) in
      elim (Bool-cases (ltb_ℤ a.balance_centavos op.amount_centavos)) [
        | inl short ↦
            rw (balance, balance', ok, short)
              (passed_on (move bank (some i) (some j) op.amount_centavos) false m l
                (move-short m i j a b entry entry' apart idle idle' bank op.amount_centavos short)
                mirror)
        | inr enough ↦
            rw (balance, balance', ok, enough)
              (passed_on (move bank (some i) (some j) op.amount_centavos) true
                (settle j w (settle i v m))
                (set_balance (set_balance l op.account_id v) op.target_account w)
                (move-end m i j a b entry entry' apart idle idle' bank op.amount_centavos enough)
                (settle-Mirrors bank now loaded (set_balance l op.account_id v) (settle i v m)
                  (settle-Mirrors bank now loaded l m mirror op.account_id i h v) op.target_account
                  j h' w))
      ]

  pub transfer-Does :
      Does
        (perform_transfer bank op (true, loaded))
        (spec (l.balances op.account_id) (l.balances op.target_account))
  unfolding perform_transfer transfer
  transfer-Does = elim (Bool-cases refused) [
    | inl e ↦
        rw (transfer_between-refused (l.balances op.account_id) (l.balances op.target_account) e, e)
          (m, exec-ret (false, loaded) m, mirror)
    | inr e ↦ rw e (
        moved-Does (get_account bank op.account_id) (get_account bank op.target_account) e refl
          refl)
  ]
