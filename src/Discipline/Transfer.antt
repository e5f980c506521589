-- ===== src/Discipline/Transfer.antt =====
-- `transfer` of src/core/bank.c, with the two locks of src/concurrency/lock_mgr.c, keeps to the
-- logic: the locks are taken in ascending order, and what leaves one account enters the other.
use cmsc125_lab3_sabandal_sa.Common.{
  ℕ, ◌<◌, ◌≡◌, refl, sym, ap, ◌∙◌, ◌≢◌, inl, inr, true, false, some, ℤ, pos, negsuc, pos_part,
  arith, ltb_ℤ, ◌≤ℤ◌, ◌==◌, ◌==ℤ◌, Bool-cases, Option-cases,
}
use cmsc125_lab3_sabandal_sa.CInt.{int_half}
use cmsc125_lab3_sabandal_sa.Bank.{Bank, get_account}
use cmsc125_lab3_sabandal_sa.Bank.Lookup.{IsValid}
use cmsc125_lab3_sabandal_sa.Bank.Money.{move_locked, move, transfer}
use cmsc125_lab3_sabandal_sa.LockMgr.{slot_id, validate_accounts}
use cmsc125_lab3_sabandal_sa.Discipline.{IsUsed, Claim, IsFree, Keeps}
use cmsc125_lab3_sabandal_sa.Discipline.Locks.{
  Settled, HoldsBoth, MayLock-free, found_id, unlock_both-IsFree, add_int_fits, sub_int_fits,
}

module _ (bank : Bank) (supply : ℕ) (small : supply < int_half) where
  -- The part of a transfer between its locks.
  move_locked-Keeps :
      (c d : Claim) (i j : ℕ) (amount : ℕ)
      → i ≢ j
      → IsUsed bank i
      → IsUsed bank j
      → HoldsBoth c d i j
      → Keeps bank supply d
          (move_locked (some i) (some j) (pos amount))
          (λ done c'. Settled c 0 0 c')
  unfolding move_locked
  move_locked-Keeps c d i j amount ne lt_i lt_j both = (
    (lt_i, omega (arith, both.first)),
    λ r seen. elim (Bool-cases (ltb_ℤ r (pos amount))) [
      | inl short ↦ rw short (
        (lt_i, omega (arith, both.first)),
        λ _ _. (
          (lt_j, ground (arith, both.second)),
          λ _ _. record {
            free = unlock_both-IsFree c d i j _ _ both;
            balance = ground (arith, both.same_purse);
          },
        ),
      )
      | inr enough ↦ rw enough (
        (lt_i, omega (arith, both.first)),
        λ r' seen'.
            let same : pos_part r' ≡ pos_part r = seen'.again (pos_part r) (ground arith) in
            let (low, difference) =
              sub_int_fits r' amount seen'.nonneg (ground arith) (omega (arith, seen'.within)) in
            (
              (
                lt_i,
                record {
                  exclusive = both.first;
                  old = pos_part r';
                  current = ground arith;
                  nonneg = low;
                  covered = omega arith;
                },
              ),
              λ _ _. (
                (lt_j, omega (arith, both.second)),
                λ r2 seen2.
                    let (low2, sum) =
                      add_int_fits r2 amount seen2.nonneg (ground (arith, seen2.within)) in
                    (
                      (
                        lt_j,
                        record {
                          exclusive = both.second;
                          old = pos_part r2;
                          current = ground arith;
                          nonneg = low2;
                          covered = ground (arith, seen2.within);
                        },
                      ),
                      λ _ _. (
                        (lt_i, omega (arith, both.first)),
                        λ _ _. (
                          (lt_j, ground (arith, both.second)),
                          λ _ _. record {
                            free = unlock_both-IsFree c d i j _ _ both;
                            balance = ground (arith, both.same_purse, seen2.within);
                          },
                        ),
                      ),
                    ),
              ),
            ),
      )
    ],
  )

  -- With both pointers valid, `move` takes the two locks in ascending order first.
  move-Keeps :
      (c : Claim) (i j : ℕ) (amount : ℕ)
      → IsFree c
      → i ≢ j
      → IsUsed bank i
      → IsUsed bank j
      → pos 0 ≤ℤ slot_id bank i
      → pos 0 ≤ℤ slot_id bank j
      → slot_id bank i ≢ slot_id bank j
      → Keeps bank supply c (move bank (some i) (some j) (pos amount)) (λ done c'. Settled c 0 0 c')
  unfolding move
  move-Keeps c i j amount f ne lt_i lt_j low_i low_j differ =
      let apart : (i == j) ≡ false = ground arith in
      elim (Bool-cases (ltb_ℤ (slot_id bank i) (slot_id bank j))) [
        | inl below ↦
            rw (apart, below)
              (
                MayLock-free bank c i f lt_i,
                λ _ _. (
                  record {
                    in_range = lt_j;
                    ascending = λ k h. ground (arith, f.no_locks k);
                    outside = f.no_mutex;
                    settled = f.none_owed;
                  },
                  λ _ _. move_locked-Keeps c _ i j amount ne lt_i lt_j (record {
                    first = ground arith;
                    second = ground arith;
                    others = λ k ni nj. ground (arith, f.no_locks k);
                    no_mutex = f.no_mutex;
                    no_credit = f.no_credit;
                    none_owed = f.none_owed;
                    none_due = f.none_due;
                    same_purse = refl;
                  }),
                ),
              )
        | inr above ↦
            rw (apart, above)
              (
                MayLock-free bank c j f lt_j,
                λ _ _. (
                  record {
                    in_range = lt_i;
                    ascending = λ k h. ground (arith, f.no_locks k);
                    outside = f.no_mutex;
                    settled = f.none_owed;
                  },
                  λ _ _. move_locked-Keeps c _ i j amount ne lt_i lt_j (record {
                    first = ground arith;
                    second = ground arith;
                    others = λ k ni nj. ground (arith, f.no_locks k);
                    no_mutex = f.no_mutex;
                    no_credit = f.no_credit;
                    none_owed = f.none_owed;
                    none_due = f.none_due;
                    same_purse = refl;
                  }),
                ),
              )
      ]

  -- Whatever the two lookups find.
  found_both :
      (c : Claim) (from_id to_id : ℤ) (n : ℕ)
      → IsValid bank
      → IsFree c
      → from_id ≢ to_id
      → Keeps bank supply c
          (move bank (get_account bank from_id) (get_account bank to_id) (pos n))
          (λ _ c'. Settled c 0 0 c')
  unfolding move
  found_both c from_id to_id n v f differ = elim (Option-cases (get_account bank from_id)) [
    | inl e ↦ rw (e, validate_accounts) (record { free = f; balance = refl })
    | inr (i, e) ↦ elim (Option-cases (get_account bank to_id)) [
      | inl e' ↦ rw (e, e', validate_accounts) (record { free = f; balance = refl })
      | inr (j, e') ↦
          let (at_i, in_i, low_i) = found_id bank from_id i v e in
          let (at_j, in_j, low_j) = found_id bank to_id j v e' in
          let apart = λ (p : slot_id bank i ≡ slot_id bank j). differ (sym at_i ∙ p ∙ at_j) in
          rw (e, e')
            (move-Keeps c i j n f (λ p. apart (ap (slot_id bank) p)) in_i in_j low_i low_j apart)
    ]
  ]

  -- A transfer changes no purse, whether it succeeds or not.
  pub transfer-Keeps :
      (c : Claim) (from_id to_id amount : ℤ)
      → IsValid bank
      → IsFree c
      → Keeps bank supply c (transfer bank from_id to_id amount) (λ _ c'. Settled c 0 0 c')
  unfolding transfer
  transfer-Keeps c from_id to_id (negsuc n) v f =
      let void : ltb_ℤ (negsuc n) (pos 0) ≡ true = ground arith in
      rw void (record { free = f; balance = refl })
  transfer-Keeps c from_id to_id (pos n) v f =
      let void : ltb_ℤ (pos n) (pos 0) ≡ false = ground arith in
      elim (Bool-cases (from_id ==ℤ to_id)) [
        | inl same ↦ rw (void, same) (record { free = f; balance = refl })
        | inr other ↦ rw (void, other) (found_both c from_id to_id n v f (ground arith))
      ]
