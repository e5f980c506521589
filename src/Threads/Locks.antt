-- ===== src/Threads/Locks.antt =====
-- Every access keeps the account locks and the claims on them in step.
use cmsc125_lab3_sabandal_sa.Common.{
  ℕ, ◌+◌, ◌<◌, ◌≤◌, ◌≡◌, ◌≢◌, ◌⊎◌, inl, inr, ap, sym, ◌∙◌, true, Option, some, List, arith, dec_lt,
  ℕ_discrete, get_elem?, modify, update, total, total-update, total-ge, total-ge_two, Option-cases,
  get_elem?-modify_self, get_elem?-modify_ne,
}
use cmsc125_lab3_sabandal_sa.RwLock.{RwLock}
use cmsc125_lab3_sabandal_sa.Bank.{Account}
use cmsc125_lab3_sabandal_sa.Machine.{Shared, with_lock}
use cmsc125_lab3_sabandal_sa.Discipline.{Claim, holds}
use cmsc125_lab3_sabandal_sa.Threads.Invariant.{bit, lock_of, lock_at, LocksOk}

abbrev pub put_lock : RwLock → Account → Account
put_lock l a = record a { lock = l }

-- A lock call that goes through changes the lock of one account.
pub with_lock-some :
    (f : RwLock → Option RwLock) (k : ℕ) (m m' : Shared) (r : Unit {0})
    → with_lock f k m ≡ some (r, m')
    → (a : Account) × (l : RwLock) × (get_elem? m.bank.accounts k ≡ some a)
      × (f a.lock ≡ some l)
      × (m' ≡ record m {
        bank = record m.bank { accounts = modify m.bank.accounts k (λ b. record b { lock = l }) };
      })
with_lock-some f k m m' r h = elim (Option-cases (get_elem? m.bank.accounts k)) [
  | inl e ↦ ground arith
  | inr (a, e) ↦ elim (Option-cases (f a.lock)) [
    | inl e' ↦ ground arith
    | inr (l, e') ↦ (a, l, e, e', ground arith)
  ]
]

-- The claims and the locks before and after thread `t` changes the lock of slot `k`.
pub record LockChange (c c' : Claim) (k : ℕ) (before after : RwLock) : Type 0 where
  pub writer : bit after.writer + c.writes k ≡ bit before.writer + c'.writes k
  pub readers : after.readers + c.reads k ≡ before.readers + c'.reads k
  pub apart : after.writer ≡ true → after.readers ≡ 0
  pub once : c'.reads k ≤ 1
  pub same_writes : (j : ℕ) → j ≢ k → c'.writes j ≡ c.writes j
  pub same_reads : (j : ℕ) → j ≢ k → c'.reads j ≡ c.reads j

-- The lock found at slot `j` after the lock of slot `k` has been set.
modified_lock :
    (accounts : List Account) (k : ℕ) (a : Account) (l : RwLock) (j : ℕ) (x : RwLock)
    → get_elem? accounts k ≡ some a
    → lock_at (modify accounts k (λ b. record b { lock = l })) j ≡ some x
    → ((k ≡ j) × (x ≡ l)) ⊎ ((j ≢ k) × (lock_at accounts j ≡ some x))
modified_lock accounts k a l j x e h = elim (ℕ_discrete k j) [
  | yes here ↦ inl (
    here,
    ground (arith, ap lock_of (get_elem?-modify_self accounts k (λ b. record b { lock = l }) a e)),
  )
  | no other ↦ inr (
    (λ p. other (sym p)),
    sym (ap lock_of (get_elem?-modify_ne accounts k j (λ b. record b { lock = l }) other)) ∙ h,
  )
]

module _ (n : ℕ) (g : ℕ → Claim) (accounts : List Account) (ok : LocksOk n g accounts) where
  -- Two threads with a claim on one lock, one of them a writer's, are one thread.
  pub exclusive :
      (k : ℕ) (l : RwLock) (i j : ℕ)
      → lock_at accounts k ≡ some l
      → i < n
      → j < n
      → 0 < (g i).writes k
      → 0 < holds (g j) k
      → i ≡ j
  exclusive k l i j e lt_i lt_j w h = elim (ℕ_discrete i j) [
    | yes same ↦ same
    | no other ↦ absurd (elim (dec_lt i j) [
      | yes below ↦ clash (total-ge_two (λ (c : Claim). c.writes k) n g i j below lt_j)
      | no above ↦
          clash (omega (arith, total-ge_two (λ (c : Claim). c.writes k) n g j i (omega arith) lt_i))
    ])
  ]
    where
      clash : (g i).writes k + (g j).writes k ≤ total (λ (c : Claim). c.writes k) n g → ⊥
      clash two = ground (
        arith,
        two,
        ok.writers k l e,
        ok.readers k l e,
        ok.apart k l e,
        total-ge (λ (c : Claim). c.writes k) n g i lt_i,
        total-ge (λ (c : Claim). c.reads k) n g j lt_j,
      )

  module _ (t : ℕ) (lt : t < n) (c' : Claim) where
    pub change-LocksOk :
        (k : ℕ) (a : Account) (l : RwLock)
        → get_elem? accounts k ≡ some a
        → LockChange (g t) c' k a.lock l
        → LocksOk n (update g t c') (modify accounts k (λ b. record b { lock = l }))
    change-LocksOk k a l e change = record {
      writers = λ j x h. elim (modified_lock accounts k a l j x e h) [
        | inl (here, set) ↦
            rw (← here, set)
              (omega (
                arith,
                total-update (λ (c : Claim). c.writes k) n g t c' lt,
                change.writer,
                ok.writers k a.lock (ap lock_of e),
              ))
        | inr (other, old) ↦ omega (
          arith,
          total-update (λ (c : Claim). c.writes j) n g t c' lt,
          change.same_writes j other,
          ok.writers j x old,
        )
      ];
      readers = λ j x h. elim (modified_lock accounts k a l j x e h) [
        | inl (here, set) ↦
            rw (← here, set)
              (omega (
                arith,
                total-update (λ (c : Claim). c.reads k) n g t c' lt,
                change.readers,
                ok.readers k a.lock (ap lock_of e),
              ))
        | inr (other, old) ↦ omega (
          arith,
          total-update (λ (c : Claim). c.reads j) n g t c' lt,
          change.same_reads j other,
          ok.readers j x old,
        )
      ];
      apart = λ j x h. elim (modified_lock accounts k a l j x e h) [
        | inl (here, set) ↦ rw set change.apart
        | inr (other, old) ↦ ok.apart j x old
      ];
      once = λ i j lt_i. elim (ℕ_discrete j k) [
        | yes here ↦ rw here (ground (arith, change.once, ok.once i k lt_i))
        | no other ↦ ground (arith, change.same_reads j other, ok.once i j lt_i, ok.once t j lt)
      ];
    }

    -- An access that leaves the locks and the claims on them alone.
    pub frame-LocksOk :
        (accounts' : List Account)
        → ((k : ℕ) → lock_at accounts' k ≡ lock_at accounts k)
        → ((k : ℕ) → c'.writes k ≡ (g t).writes k)
        → ((k : ℕ) → c'.reads k ≡ (g t).reads k)
        → LocksOk n (update g t c') accounts'
    frame-LocksOk accounts' same w r = record {
      writers = λ k l e. omega (
        arith,
        total-update (λ (c : Claim). c.writes k) n g t c' lt,
        w k,
        ok.writers k l (rw (← same k) e),
      );
      readers = λ k l e. omega (
        arith,
        total-update (λ (c : Claim). c.reads k) n g t c' lt,
        r k,
        ok.readers k l (rw (← same k) e),
      );
      apart = λ k l e. ok.apart k l (rw (← same k) e);
      once = λ i k lt_i. ground (arith, ok.once i k lt_i, ok.once t k lt, r k);
    }
