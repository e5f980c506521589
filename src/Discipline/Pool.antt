-- ===== src/Discipline/Pool.antt =====
-- The calls of src/concurrency/buffer_pool.c keep to the logic: the slots are touched only under
-- `pool_lock`, an insertion only with a unit of `empty_slots` in hand, and every unit that is taken
-- is passed on.
use cmsc125_lab3_sabandal_sa.Common.{
  ℕ, ◌+◌, ◌-◌, ◌≡◌, refl, ◌∙◌, ◌≢◌, true, false, Option, none, some, ℤ, arith, if◌then◌else◌,
}
use cmsc125_lab3_sabandal_sa.Bank.{Bank}
use cmsc125_lab3_sabandal_sa.BufferPool.{Placed, already, inserted, no_slot}
use cmsc125_lab3_sabandal_sa.BufferPool.Calls.{
  load_account, load_slot, claim_empty, after_place, unload_account,
}
use cmsc125_lab3_sabandal_sa.LockMgr.{slot_id}
use cmsc125_lab3_sabandal_sa.Machine.{lock_pool, place_account, ret, access, ◌>>=◌, ◌>>◌}
use cmsc125_lab3_sabandal_sa.Discipline.{Claim, after_placing, IsFree, Keeps, Keeps-bind}
use cmsc125_lab3_sabandal_sa.Discipline.Locks.{Settled}

-- The thread is free but for one unit of `empty_slots`.
record HasCredit (c d : Claim) : Type 0 where
  no_locks : (i : ℕ) → d.writes i + d.reads i ≡ 0
  no_mutex : d.mutex ≡ 0
  one : d.credit ≡ 1
  none_owed : d.owed ≡ 0
  none_due : d.due ≡ 0
  same_purse : d.purse ≡ c.purse

-- The claim of a free thread around a section under the mutex.
module _ (c : Claim) (f : IsFree c) where
  relock-IsFree : IsFree (record c { mutex = 0 })
  relock-IsFree = record {
    no_locks = f.no_locks;
    no_mutex = refl;
    no_credit = f.no_credit;
    none_owed = f.none_owed;
    none_due = f.none_due;
  }

  claimed : HasCredit c (record c { mutex = 0; credit = c.credit + 1 })
  claimed = record {
    no_locks = f.no_locks;
    no_mutex = refl;
    one = omega (arith, f.no_credit);
    none_owed = f.none_owed;
    none_due = f.none_due;
    same_purse = refl;
  }

  unit_passed : IsFree (record c { mutex = 0; credit = c.credit + 1 - 1; due = c.due + 1 - 1 })
  unit_passed = record {
    no_locks = f.no_locks;
    no_mutex = refl;
    no_credit = omega (arith, f.no_credit);
    none_owed = f.none_owed;
    none_due = omega (arith, f.none_due);
  }

module _ (c d : Claim) (h : HasCredit c (record d { mutex = 0 })) where
  credit_spent : IsFree (record d { mutex = 0; credit = d.credit - 1 })
  credit_spent = record {
    no_locks = h.no_locks;
    no_mutex = refl;
    no_credit = omega (arith, h.one);
    none_owed = h.none_owed;
    none_due = h.none_due;
  }

  owed_spent : IsFree (record d { mutex = 0; credit = d.credit - 1; owed = d.owed + 1 - 1 })
  owed_spent = record {
    no_locks = h.no_locks;
    no_mutex = refl;
    no_credit = omega (arith, h.one);
    none_owed = omega (arith, h.none_owed);
    none_due = h.none_due;
  }

relocked : (c d : Claim) → HasCredit c d → HasCredit c (record d { mutex = 0 })
relocked c d h = record {
  no_locks = h.no_locks;
  no_mutex = refl;
  one = h.one;
  none_owed = h.none_owed;
  none_due = h.none_due;
  same_purse = h.same_purse;
}

module _ (bank : Bank) (supply : ℕ) where
  -- After a failed trywait the blocked load is counted, and the unit is waited for.
  claim_empty-Keeps :
      (c : Claim) → IsFree c → Keeps bank supply c (claim_empty false) (λ _ d. HasCredit c d)
  unfolding claim_empty
  claim_empty-Keeps c f = (
    (f.no_locks, f.no_mutex, f.none_owed),
    λ _ _. (refl, λ _ _. (refl, λ _ _. (relock-IsFree c f, λ _ _. claimed c f))),
  )

  -- With a unit in hand and the mutex held, the account has been placed.
  after_place-Keeps :
      (c d : Claim) (r : Placed)
      → HasCredit c (record d { mutex = 0 })
      → d.mutex ≡ 1
      → r ≢ no_slot
      → Keeps bank supply (after_placing r d) (after_place r) (λ _ c'. Settled c 0 0 c')
  unfolding after_place
  after_place-Keeps c d already h m ok = (
    m,
    λ _ _. (
      omega (arith, h.one),
      λ _ _. record { free = credit_spent c d h; balance = ground (arith, h.same_purse) },
    ),
  )
  after_place-Keeps c d (inserted true) h m ok = (
    m,
    λ _ _. (
      omega arith,
      λ _ _.
          (tt, λ _ _. record { free = owed_spent c d h; balance = ground (arith, h.same_purse) }),
    ),
  )
  after_place-Keeps c d (inserted false) h m ok = (
    m,
    λ _ _. (
      omega arith,
      λ _ _. record { free = owed_spent c d h; balance = ground (arith, h.same_purse) },
    ),
  )
  after_place-Keeps c d no_slot h m ok = absurd (ok refl)

  place-Keeps :
      (c d : Claim) (id : ℤ) (i : ℕ)
      → HasCredit c d
      → Keeps bank supply d
          (access lock_pool >> (access (place_account id i) >>= after_place))
          (λ _ c'. Settled c 0 0 c')
  place-Keeps c d id i h = (
    (h.no_locks, h.no_mutex, h.none_owed),
    λ _ _. (
      (refl, omega (arith, h.one)),
      λ r ok. after_place-Keeps c (record d { mutex = 1 }) r (relocked c d h) refl ok,
    ),
  )

  load_slot-Keeps :
      (c d : Claim) (id : ℤ) (i : ℕ)
      → IsFree d
      → d.purse ≡ c.purse
      → Keeps bank supply d (load_slot id i) (λ _ c'. Settled c 0 0 c')
  unfolding load_slot
  load_slot-Keeps c d id i f same = (
    tt,
    elim [
      | true ↦ λ _. place-Keeps c _ id i (record {
        no_locks = f.no_locks;
        no_mutex = f.no_mutex;
        one = omega (arith, f.no_credit);
        none_owed = f.none_owed;
        none_due = f.none_due;
        same_purse = same;
      })
      | false ↦ λ _.
          Keeps-bind bank supply {B = Unit {0}} (λ _ e. HasCredit d e) (λ _. Settled c 0 0) d
            (claim_empty false)
            (λ _. access lock_pool >> (access (place_account id i) >>= after_place))
            (claim_empty-Keeps d f)
            (λ _ e h. place-Keeps c e id i (record {
              no_locks = h.no_locks;
              no_mutex = h.no_mutex;
              one = h.one;
              none_owed = h.none_owed;
              none_due = h.none_due;
              same_purse = h.same_purse ∙ same;
            }))
    ],
  )

  -- A load ends with the thread as free as it was.
  pub load_account-Keeps :
      (c : Claim) (account : Option ℕ)
      → IsFree c
      → Keeps bank supply c (load_account bank account) (λ _ c'. Settled c 0 0 c')
  unfolding load_account
  load_account-Keeps c none f = record { free = f; balance = refl }
  load_account-Keeps c (some i) f = (
    (f.no_locks, f.no_mutex, f.none_owed),
    λ _ _. (
      refl,
      λ hit _. (
        refl,
        λ _ _.
            elim hit
              as (λ h.
                Keeps bank supply (record c { mutex = 0 })
                  (if h then ret tt else load_slot (slot_id bank i) i) (λ _ c'. Settled c 0 0 c')) [
                    | true ↦ record { free = relock-IsFree c f; balance = refl }
                    | false ↦
                        load_slot-Keeps c (record c { mutex = 0 }) (slot_id bank i) i
                          (relock-IsFree c f) refl
                  ],
      ),
    ),
  )

  -- So does an unload: a freed slot's unit of `full_slots` becomes one of `empty_slots`.
  pub unload_account-Keeps :
      (c : Claim) (id : ℤ)
      → IsFree c
      → Keeps bank supply c (unload_account id) (λ _ c'. Settled c 0 0 c')
  unfolding unload_account
  unload_account-Keeps c id f = (
    (f.no_locks, f.no_mutex, f.none_owed),
    λ _ _. (
      refl,
      elim [
        | true ↦ λ _. (
          refl,
          λ _ _. (
            (f.no_locks, refl, f.none_owed, omega arith),
            λ _ _. (omega arith, λ _ _. record { free = unit_passed c f; balance = refl }),
          ),
        )
        | false ↦ λ _. (refl, λ _ _. record { free = relock-IsFree c f; balance = refl })
      ],
    ),
  )
