-- ===== src/Serial/Loading.antt =====
-- How a transaction of src/core/transaction.c that runs alone loads its accounts, and unloads them.
use cmsc125_lab3_sabandal_sa.Common.{
  ℕ, ◌≡◌, refl, ap, ◌∙◌, subst, inl, inr, Bool, true, false, none, some, Option-cases, List, [],
  ◌∷◌, ℤ, arith, leb, ◌==ℤ◌, Bool-cases, if◌then◌else◌, length,
}
use cmsc125_lab3_sabandal_sa.Bank.{Bank, get_account}
use cmsc125_lab3_sabandal_sa.BufferPool.{buffer_pool_size}
use cmsc125_lab3_sabandal_sa.BufferPool.Calls.{load_account, unload_account}
use cmsc125_lab3_sabandal_sa.Machine.{Shared, with_pool, ret, exec}
use cmsc125_lab3_sabandal_sa.Machine.Exec.{exec-ret, exec-bind, exec-bind_none}
use cmsc125_lab3_sabandal_sa.Transaction.Execute.{
  max_loaded_accounts, transaction_has_loaded_account, load_found, load_account_for_transaction,
  load_both, unload_transaction_accounts,
}
use cmsc125_lab3_sabandal_sa.Serial.{Ledger, is_among, admit, and_then}
use cmsc125_lab3_sabandal_sa.Serial.Pool.{
  occurrences, Holds, load_account-Holds, load_account-waits,
}
use cmsc125_lab3_sabandal_sa.Serial.Unload.{unload_account-Holds}
use cmsc125_lab3_sabandal_sa.Serial.Mirror.{
  Mirrors, Follows, Follows-bind, get_account-slot_id, entry_of, missing, with_pool-Mirrors,
}

pub transaction_has_loaded_account-eq :
    (loaded : List ℤ) (id : ℤ) → transaction_has_loaded_account loaded id ≡ is_among loaded id
unfolding transaction_has_loaded_account
transaction_has_loaded_account-eq [] id = refl
transaction_has_loaded_account-eq (a ∷ rest) id =
    ap (λ b. if a ==ℤ id then true else b) (transaction_has_loaded_account-eq rest id)

pub occurrences_absent :
    (loaded : List ℤ) (id : ℤ) → is_among loaded id ≡ false → occurrences loaded id ≡ 0
occurrences_absent [] id h = refl
occurrences_absent (a ∷ rest) id h = elim (Bool-cases (a ==ℤ id)) [
  | inl e ↦ ground arith
  | inr e ↦ let below = occurrences_absent rest id (ground arith) in ground arith
]

module _ (bank : Bank) (now : ℤ) (l : Ledger) where
  abbrev pub LoadedBy : Bool × List ℤ → Shared → Type 0
  LoadedBy (ok, loaded) m = Mirrors bank now loaded l m

  module _ (loaded : List ℤ) (m : Shared) (mirror : Mirrors bank now loaded l m) where
    few_loaded : leb max_loaded_accounts (length loaded) ≡ false
    few_loaded = ground (arith, mirror.pool.empties)

    load_new :
        (id : ℤ) (i : ℕ) (full : Bool)
        → get_account bank id ≡ some i
        → is_among loaded id ≡ false
        → leb buffer_pool_size (length loaded) ≡ full
        → Follows LoadedBy
            (if full then none else some (true, id ∷ loaded))
            (load_found bank loaded id (some i))
            m
    unfolding load_found
    load_new id i true at new h =
        exec-bind_none (load_account bank (some i)) (λ r. ret (true, id ∷ loaded)) m
          (load_account-waits bank m i loaded mirror.pool
            (ap (occurrences loaded) (get_account-slot_id bank id i at)
              ∙ occurrences_absent loaded id new)
            (ground arith))
    load_new id i false at new h =
        let (pool, e, holds) =
          load_account-Holds bank m i loaded mirror.pool
            (ap (occurrences loaded) (get_account-slot_id bank id i at)
              ∙ occurrences_absent loaded id new)
            (ground arith) in
        (
          with_pool pool m,
          exec-bind (load_account bank (some i)) (λ r. ret (true, id ∷ loaded)) m (with_pool pool m)
                tt e
              ∙ exec-ret (true, id ∷ loaded) (with_pool pool m),
          with_pool-Mirrors bank now loaded l m mirror (id ∷ loaded) pool
              (subst (λ x. Holds (x ∷ loaded) pool) (get_account-slot_id bank id i at) holds),
        )

    pub load_account_for_transaction-Follows :
        (id : ℤ)
        → Follows LoadedBy (admit l loaded id) (load_account_for_transaction bank loaded id) m
    unfolding load_account_for_transaction load_found
    load_account_for_transaction-Follows id = elim (Bool-cases (is_among loaded id)) [
      | inl e ↦
          rw (transaction_has_loaded_account-eq loaded id, e) (m, exec-ret (true, loaded) m, mirror)
      | inr e ↦ elim (Option-cases (get_account bank id)) [
        | inl h ↦
            rw
              (
                transaction_has_loaded_account-eq loaded id,
                e,
                few_loaded,
                missing bank now loaded l m mirror id h,
                h,
              )
              (m, exec-ret (false, loaded) m, mirror)
        | inr (i, h) ↦
            let (a, entry, idle, balance) = entry_of bank now loaded l m mirror id i h in
            rw (transaction_has_loaded_account-eq loaded id, e, few_loaded, balance, h)
              (load_new id i (leb buffer_pool_size (length loaded)) h e refl)
      ]
    ]

-- A second account follows the first only if that was loaded.
pub load_both-Follows :
    (bank : Bank) (now : ℤ) (l : Ledger) (loaded : List ℤ) (m : Shared)
    (mirror : Mirrors bank now loaded l m) (from_id to_id : ℤ)
    → Follows
        (LoadedBy bank now l)
        (and_then
          (admit l loaded from_id)
          λ (ok, loaded'). if ok then admit l loaded' to_id else some (false, loaded'))
        (load_both bank loaded from_id to_id)
        m
unfolding load_both
load_both-Follows bank now l loaded m mirror from_id to_id =
    Follows-bind (LoadedBy bank now l) (LoadedBy bank now l) (admit l loaded from_id) _
      (load_account_for_transaction bank loaded from_id) _ m
      (load_account_for_transaction-Follows bank now l loaded m mirror from_id)
      (λ (ok, loaded') m' mirror'. second ok loaded' m' mirror')
  where
    second :
        (ok : Bool) (loaded' : List ℤ) (m' : Shared)
        → Mirrors bank now loaded' l m'
        → Follows
            (LoadedBy bank now l)
            (if ok then admit l loaded' to_id else some (false, loaded'))
            (if ok then load_account_for_transaction bank loaded' to_id else ret (false, loaded'))
            m'
    second true loaded' m' mirror' =
        load_account_for_transaction-Follows bank now l loaded' m' mirror' to_id
    second false loaded' m' mirror' = (m', exec-ret (false, loaded') m', mirror')

-- At the end every loaded account goes out again.
pub unload_transaction_accounts-end :
    (bank : Bank) (now : ℤ) (l : Ledger) (loaded : List ℤ) (m : Shared)
    (mirror : Mirrors bank now loaded l m)
    → (m' : Shared) × (exec (unload_transaction_accounts loaded) m ≡ some (tt, m'))
      × Mirrors bank now [] l m'
unfolding unload_transaction_accounts
unload_transaction_accounts-end bank now l [] m mirror = (m, exec-ret tt m, mirror)
unload_transaction_accounts-end bank now l (a ∷ loaded) m mirror =
    let (pool, e, holds) = unload_account-Holds m a loaded mirror.pool in
    let (m', e', mirror') =
      unload_transaction_accounts-end bank now l loaded (with_pool pool m)
        (with_pool-Mirrors bank now (a ∷ loaded) l m mirror loaded pool holds) in
    (
      m',
      exec-bind (unload_account a) (λ r. unload_transaction_accounts loaded) m (with_pool pool m) tt
            e
          ∙ e',
      mirror',
    )
