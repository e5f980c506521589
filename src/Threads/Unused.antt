-- ===== src/Threads/Unused.antt =====
-- No thread touches a slot of the array that holds no account.
use cmsc125_lab3_sabandal_sa.Common.{
  ℕ, ◌≤◌, ◌<◌, ◌≡◌, ap, ◌∙◌, Option, some, ℤ, arith, get_elem?, get_elem?-modify_ne, Option-cases,
  inl, inr,
}
use cmsc125_lab3_sabandal_sa.RwLock.{RwLock, write_lock, read_lock, release}
use cmsc125_lab3_sabandal_sa.Bank.{Bank}
use cmsc125_lab3_sabandal_sa.Machine.{
  Shared, Action, wrlock, rdlock, unlock, load_balance, store_balance, lock_pool, Reply, perform,
  with_lock,
}
use cmsc125_lab3_sabandal_sa.Discipline.{Claim, Allowed}
use cmsc125_lab3_sabandal_sa.Threads.Locks.{with_lock-some}
use cmsc125_lab3_sabandal_sa.Threads.Quiet.{quiet_bank}

module _ (bank : Bank) (m m' : Shared) (c : Claim) (k : ℕ) (beyond : bank.num_accounts ≤ k) where
  lock-unused :
      (f : RwLock → Option RwLock) (i : ℕ) (r : Unit {0})
      → i < bank.num_accounts
      → with_lock f i m ≡ some (r, m')
      → get_elem? m'.bank.accounts k ≡ get_elem? m.bank.accounts k
  lock-unused f i r lt h =
      let (a, l, e, e', same) = with_lock-some f i m m' r h in
      ap (λ (x : Shared). get_elem? x.bank.accounts k) same
      ∙ get_elem?-modify_ne m.bank.accounts i k (λ b. record b { lock = l }) (λ e. omega arith)

  store-unused :
      (i : ℕ) (v : ℤ) (r : Unit {0})
      → i < bank.num_accounts
      → perform (store_balance i v) m ≡ some (r, m')
      → get_elem? m'.bank.accounts k ≡ get_elem? m.bank.accounts k
  unfolding perform
  store-unused i v r lt h = elim (Option-cases (get_elem? m.bank.accounts i)) [
    | inl e ↦ ground arith
    | inr (a, e) ↦ ground (
      arith,
      get_elem?-modify_ne m.bank.accounts i k (λ b. record b { balance_centavos = v })
          (λ e. omega arith),
    )
  ]

  pub perform-unused :
      (a : Action) (r : Reply a)
      → Allowed bank a c
      → perform a m ≡ some (r, m')
      → get_elem? m'.bank.accounts k ≡ get_elem? m.bank.accounts k
  unfolding perform
  perform-unused (wrlock i) r may h = lock-unused write_lock i r may.in_range.0 h
  perform-unused (rdlock i) r may h = lock-unused read_lock i r may.in_range.0 h
  perform-unused (unlock i) r may h = lock-unused (λ l. some (release l)) i r may.0.0 h
  perform-unused (load_balance i) r may h = ground arith
  perform-unused (store_balance i v) r may h = store-unused i v r may.0.0 h
  perform-unused lock_pool r may h =
      ap (λ (b : Bank). get_elem? b.accounts k) (quiet_bank lock_pool r m m' tt h)
  perform-unused a r may h = ap (λ (b : Bank). get_elem? b.accounts k) (quiet_bank a r m m' tt h)
