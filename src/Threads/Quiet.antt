-- ===== src/Threads/Quiet.antt =====
-- The accesses that leave the accounts, their locks and the claims on them alone.
use cmsc125_lab3_sabandal_sa.Common.{◌≡◌, true, false, some, arith}
use cmsc125_lab3_sabandal_sa.BufferPool.{already, inserted, no_slot}
use cmsc125_lab3_sabandal_sa.Machine.{
  Shared, Action, wrlock, rdlock, unlock, load_balance, store_balance, lock_pool, place_account,
  unpin_account, try_empty, Reply, perform,
}
use cmsc125_lab3_sabandal_sa.Discipline.{Claim, after}

-- Neither an account's lock nor a balance is touched.
abbrev pub IsQuiet : Action → Type 0
IsQuiet (wrlock i) = ⊥
IsQuiet (rdlock i) = ⊥
IsQuiet (unlock i) = ⊥
IsQuiet (load_balance i) = ⊥
IsQuiet (store_balance i v) = ⊥
IsQuiet _ = Unit

pub quiet_bank :
    (a : Action) (r : Reply a) (m m' : Shared)
    → IsQuiet a
    → perform a m ≡ some (r, m')
    → m'.bank ≡ m.bank
unfolding perform
quiet_bank lock_pool r m m' q h = ground arith
quiet_bank (wrlock i) r m m' q h = absurd q
quiet_bank (rdlock i) r m m' q h = absurd q
quiet_bank (unlock i) r m m' q h = absurd q
quiet_bank (load_balance i) r m m' q h = absurd q
quiet_bank (store_balance i v) r m m' q h = absurd q
quiet_bank _ r m m' q h = ground arith

-- What a claim says of accounts.
pub record SameAccounts (c c' : Claim) : Type 0 where
  pub writes : c'.writes ≡ c.writes
  pub reads : c'.reads ≡ c.reads
  pub known : c'.known ≡ c.known
  pub purse : c'.purse ≡ c.purse

pub quiet_claim : (a : Action) (r : Reply a) (c : Claim) → IsQuiet a → SameAccounts c (after a r c)
quiet_claim (place_account id i) already c q = ground arith
quiet_claim (place_account id i) (inserted full) c q = ground arith
quiet_claim (place_account id i) no_slot c q = ground arith
quiet_claim (unpin_account id) true c q = ground arith
quiet_claim (unpin_account id) false c q = ground arith
quiet_claim try_empty true c q = ground arith
quiet_claim try_empty false c q = ground arith
quiet_claim (wrlock i) r c q = absurd q
quiet_claim (rdlock i) r c q = absurd q
quiet_claim (unlock i) r c q = absurd q
quiet_claim (load_balance i) r c q = absurd q
quiet_claim (store_balance i v) r c q = absurd q
quiet_claim _ r c q = ground arith
