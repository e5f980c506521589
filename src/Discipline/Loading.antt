-- ===== src/Discipline/Loading.antt =====
-- The functions of src/core/transaction.c that load a transaction's accounts and unload them keep
-- to the logic, and every account on the transaction's list is one of the bank's.
use cmsc125_lab3_sabandal_sa.Common.{
  ℕ, ◌≡◌, refl, sym, ap, ◌∙◌, Bool, true, false, inl, inr, some, List, [], ◌∷◌, ℤ, arith, leb,
  ◌==ℤ◌, if◌then◌else◌, length, Bool-cases, Option-cases, ==ℤ-eq,
}
use cmsc125_lab3_sabandal_sa.Bank.{Bank, get_account}
use cmsc125_lab3_sabandal_sa.BufferPool.Calls.{load_account, unload_account}
use cmsc125_lab3_sabandal_sa.Machine.{ret}
use cmsc125_lab3_sabandal_sa.Transaction.Execute.{
  max_loaded_accounts, transaction_has_loaded_account, load_account_for_transaction,
  unload_transaction_accounts, load_both,
}
use cmsc125_lab3_sabandal_sa.Discipline.{Claim, IsFree, Keeps, Keeps-bind, Keeps-mono}
use cmsc125_lab3_sabandal_sa.Discipline.Locks.{Settled}
use cmsc125_lab3_sabandal_sa.Discipline.Pool.{load_account-Keeps, unload_account-Keeps}

abbrev pub Found : Bank → ℤ → Type 0
Found bank id = (i : ℕ) × (get_account bank id ≡ some i)

-- Every account that the transaction has loaded is one of the bank's.
abbrev pub AllFound : Bank → List ℤ → Type 0
AllFound bank loaded = (id : ℤ) → transaction_has_loaded_account loaded id ≡ true → Found bank id

pub record Loads (bank : Bank) (c : Claim) (id : ℤ) (r : Bool × List ℤ) (c' : Claim) : Type 0 where
  pub settled : Settled c 0 0 c'
  pub all_found : AllFound bank r.1
  pub found : r.0 ≡ true → Found bank id

-- What an operation has done when it returns whether to go on.
pub record Performs (bank : Bank) (c : Claim) (paid taken : ℕ) (r : Bool × List ℤ) (c' : Claim)
    : Type 0 where
  pub settled : Settled c (if r.0 then paid else 0) (if r.0 then taken else 0) c'
  pub all_found : AllFound bank r.1

pub AllFound-cons :
    (bank : Bank) (loaded : List ℤ) (id : ℤ) (i : ℕ)
    → AllFound bank loaded
    → get_account bank id ≡ some i
    → AllFound bank (id ∷ loaded)
unfolding transaction_has_loaded_account
AllFound-cons bank loaded id i all e other h = elim (Bool-cases (id ==ℤ other)) [
  | inl same ↦ (i, ap (get_account bank) (sym (==ℤ-eq id other same)) ∙ e)
  | inr differ ↦ all other (rw differ at h)
]

-- A stretch that moves nothing changes no account of what was moved before.
pub still : (c d e : Claim) (p t : ℕ) → Settled c p t d → Settled d 0 0 e → Settled c p t e
still c d e p t g h = record { free = h.free; balance = omega (arith, g.balance, h.balance) }

-- Either outcome of an operation that moves nothing.
pub nothing :
    (c d : Claim) (go_on : Bool)
    → Settled c 0 0 d
    → Settled c (if go_on then 0 else 0) (if go_on then 0 else 0) d
nothing c d true h = h
nothing c d false h = h

module _ (bank : Bank) (supply : ℕ) where
  pub load_for-Keeps :
      (c : Claim) (loaded : List ℤ) (id : ℤ)
      → IsFree c
      → AllFound bank loaded
      → Keeps bank supply c (load_account_for_transaction bank loaded id) (Loads bank c id)
  unfolding load_account_for_transaction
  load_for-Keeps c loaded id f all = elim (Bool-cases (transaction_has_loaded_account loaded id)) [
    | inl old ↦ rw old (record {
      settled = record { free = f; balance = refl };
      all_found = all;
      found = λ _. all id old;
    })
    | inr new ↦ rw new (elim (Bool-cases (leb max_loaded_accounts (length loaded))) [
      | inl full ↦ rw full (record {
        settled = record { free = f; balance = refl };
        all_found = all;
        found = λ h. cc;
      })
      | inr room ↦ rw room (elim (Option-cases (get_account bank id)) [
        | inl e ↦ rw e (record {
          settled = record { free = f; balance = refl };
          all_found = all;
          found = λ h. cc;
        })
        | inr (i, e) ↦ rw e (
            Keeps-bind bank supply {B = Bool × List ℤ} (λ _. Settled c 0 0) (Loads bank c id) c
              (load_account bank (some i)) (λ _. ret (true, id ∷ loaded))
              (load_account-Keeps bank supply c (some i) f)
              (λ _ c' h. record {
                settled = h;
                all_found = AllFound-cons bank loaded id i all e;
                found = λ _. (i, e);
              }))
      ])
    ])
  ]

  pub unload_all-Keeps :
      (c d : Claim) (p t : ℕ) (loaded : List ℤ)
      → Settled c p t d
      → Keeps bank supply d (unload_transaction_accounts loaded) (λ _. Settled c p t)
  unfolding unload_transaction_accounts
  unload_all-Keeps c d p t [] h = h
  unload_all-Keeps c d p t (a ∷ loaded) h =
      Keeps-bind bank supply {B = Unit {0}} (λ _. Settled d 0 0) (λ _. Settled c p t) d
        (unload_account a) (λ _. unload_transaction_accounts loaded)
        (unload_account-Keeps bank supply d a h.free)
        (λ _ e g. unload_all-Keeps c e p t loaded (still c d e p t h g))

  second_load-Keeps :
      (c d : Claim) (from_id to_id : ℤ) (r : Bool × List ℤ)
      → Loads bank c from_id r d
      → Keeps bank supply d
          (if r.0 then load_account_for_transaction bank r.1 to_id else ret (false, r.1))
          (Performs bank c 0 0)
  second_load-Keeps c d from_id to_id (true, loaded) h =
      Keeps-mono bank supply (Loads bank d to_id) (Performs bank c 0 0) d
        (load_account_for_transaction bank loaded to_id)
        (load_for-Keeps d loaded to_id h.settled.free h.all_found)
        (λ r e g. record {
          settled = nothing c e r.0 (still c d e 0 0 h.settled g.settled);
          all_found = g.all_found;
        })
  second_load-Keeps c d from_id to_id (false, loaded) h = record {
    settled = h.settled;
    all_found = h.all_found;
  }

  pub load_both-Keeps :
      (c : Claim) (loaded : List ℤ) (from_id to_id : ℤ)
      → IsFree c
      → AllFound bank loaded
      → Keeps bank supply c (load_both bank loaded from_id to_id) (Performs bank c 0 0)
  unfolding load_both
  load_both-Keeps c loaded from_id to_id f all =
      Keeps-bind bank supply {B = Bool × List ℤ} (Loads bank c from_id) (Performs bank c 0 0) c
        (load_account_for_transaction bank loaded from_id) _ (load_for-Keeps c loaded from_id f all)
        (λ r d h. second_load-Keeps c d from_id to_id r h)
