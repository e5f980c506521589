-- ===== src/Threads/LockSteps.antt =====
-- One access of a thread that keeps to the logic keeps the account locks in step with the claims.
use cmsc125_lab3_sabandal_sa.Common.{
  ℕ, zero, suc, ◌<◌, ◌≡◌, refl, ap, some, List, ℤ, arith, modify, update, total-ge, [], ◌∷◌, dec_lt,
}
use cmsc125_lab3_sabandal_sa.RwLock.{write_lock, read_lock, release}
use cmsc125_lab3_sabandal_sa.Bank.{Account, Bank}
use cmsc125_lab3_sabandal_sa.Machine.{
  Shared, Action, wrlock, rdlock, unlock, load_balance, store_balance, lock_pool, Reply, perform,
}
use cmsc125_lab3_sabandal_sa.Discipline.{Claim, holds, Allowed, after, MayLock}
use cmsc125_lab3_sabandal_sa.Threads.Invariant.{lock_of, lock_at, LocksOk}
use cmsc125_lab3_sabandal_sa.Threads.Locks.{with_lock-some, change-LocksOk, frame-LocksOk}
use cmsc125_lab3_sabandal_sa.Threads.Quiet.{IsQuiet, quiet_bank, quiet_claim}

-- A store changes no lock.
pub stored_lock :
    (accounts : List Account) (i : ℕ) (v : ℤ) (k : ℕ)
    → lock_at (modify accounts i (λ b. record b { balance_centavos = v })) k ≡ lock_at accounts k
stored_lock [] i v k = refl
stored_lock (a ∷ rest) zero v zero = refl
stored_lock (a ∷ rest) zero v (suc k) = refl
stored_lock (a ∷ rest) (suc i) v zero = refl
stored_lock (a ∷ rest) (suc i) v (suc k) = stored_lock rest i v k

-- A thread takes no lock that it holds.
pub MayLock-new : (bank : Bank) (c : Claim) (k : ℕ) → MayLock bank c k → holds c k ≡ 0
MayLock-new bank c k may = elim (dec_lt 0 (holds c k)) [
  | yes held ↦ absurd (omega (arith, may.ascending k held))
  | no free ↦ omega arith
]

module _ (bank : Bank) (n : ℕ) (g : ℕ → Claim) (m m' : Shared) (ok : LocksOk n g m.bank.accounts)
    (t : ℕ) (lt : t < n) where
  wrlock-LocksOk :
      (k : ℕ) (r : Unit {0})
      → MayLock bank (g t) k
      → perform (wrlock k) m ≡ some (r, m')
      → LocksOk n (update g t (after (wrlock k) r (g t))) m'.bank.accounts
  unfolding perform
  wrlock-LocksOk k r may h =
      let (a, l, e, free, done) = with_lock-some write_lock k m m' r h in
      rw done (
        change-LocksOk n g m.bank.accounts ok t lt _ k a l e (record {
          writer = ground (arith, MayLock-new bank (g t) k may);
          readers = ground arith;
          apart = ground arith;
          once = ok.once t k lt;
          same_writes = λ j ne. ground arith;
          same_reads = λ j ne. refl;
        }))

  rdlock-LocksOk :
      (k : ℕ) (r : Unit {0})
      → MayLock bank (g t) k
      → perform (rdlock k) m ≡ some (r, m')
      → LocksOk n (update g t (after (rdlock k) r (g t))) m'.bank.accounts
  unfolding perform
  rdlock-LocksOk k r may h =
      let (a, l, e, free, done) = with_lock-some read_lock k m m' r h in
      rw done (
        change-LocksOk n g m.bank.accounts ok t lt _ k a l e (record {
          writer = ground arith;
          readers = ground (arith, MayLock-new bank (g t) k may);
          apart = ground arith;
          once = ground arith;
          same_writes = λ j ne. refl;
          same_reads = λ j ne. ground arith;
        }))

  unlock-LocksOk :
      (k : ℕ) (r : Unit {0})
      → 0 < holds (g t) k
      → perform (unlock k) m ≡ some (r, m')
      → LocksOk n (update g t (after (unlock k) r (g t))) m'.bank.accounts
  unfolding perform
  unlock-LocksOk k r held h =
      let (a, l, e, free, done) = with_lock-some (λ l. some (release l)) k m m' r h in
      let w = total-ge (λ (c : Claim). c.writes k) n g t lt in
      let d = total-ge (λ (c : Claim). c.reads k) n g t lt in
      let tw = ok.writers k a.lock (ap lock_of e) in
      let td = ok.readers k a.lock (ap lock_of e) in
      rw done (
        change-LocksOk n g m.bank.accounts ok t lt _ k a l e (record {
          writer = ground (arith, w, tw, d, td, ok.once t k lt, ok.apart k a.lock (ap lock_of e));
          readers = ground (arith, w, tw, d, td, ok.once t k lt, ok.apart k a.lock (ap lock_of e));
          apart = ground (arith, ok.apart k a.lock (ap lock_of e));
          once = ground arith;
          same_writes = λ j ne. ground arith;
          same_reads = λ j ne. ground arith;
        }))

  quiet-LocksOk :
      (a : Action) (r : Reply a)
      → IsQuiet a
      → perform a m ≡ some (r, m')
      → LocksOk n (update g t (after a r (g t))) m'.bank.accounts
  quiet-LocksOk a r q h =
      let same = quiet_claim a r (g t) q in
      frame-LocksOk n g m.bank.accounts ok t lt _ m'.bank.accounts
        (λ k. rw (quiet_bank a r m m' q h)) (λ k. ap (λ (f : ℕ → ℕ). f k) same.writes)
        (λ k. ap (λ (f : ℕ → ℕ). f k) same.reads)

  -- Any access.
  pub perform-LocksOk :
      (a : Action) (r : Reply a)
      → Allowed bank a (g t)
      → perform a m ≡ some (r, m')
      → LocksOk n (update g t (after a r (g t))) m'.bank.accounts
  unfolding perform
  perform-LocksOk (wrlock k) r may h = wrlock-LocksOk k r may h
  perform-LocksOk (rdlock k) r may h = rdlock-LocksOk k r may h
  perform-LocksOk (unlock k) r may h = unlock-LocksOk k r may.1 h
  perform-LocksOk (load_balance k) r may h =
      let same : m' ≡ m = ground arith in
      frame-LocksOk n g m.bank.accounts ok t lt _ m'.bank.accounts (λ k. rw same) (λ k. refl)
        (λ k. refl)
  perform-LocksOk (store_balance k v) r may h =
      let changed : m'.bank.accounts
          ≡ modify m.bank.accounts k (λ b. record b { balance_centavos = v }) =
        ground arith in
      frame-LocksOk n g m.bank.accounts ok t lt _ m'.bank.accounts
        (λ j. rw changed (stored_lock m.bank.accounts k v j)) (λ k. refl) (λ k. refl)
  perform-LocksOk lock_pool r may h = quiet-LocksOk lock_pool r tt h
  perform-LocksOk a r may h = quiet-LocksOk a r tt h
