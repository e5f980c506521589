-- ===== src/Discipline/Locks.antt =====
-- Claims around the account locks, and the sums and differences that fit an `int`.
use cmsc125_lab3_sabandal_sa.Common.{
  ℕ, ◌+◌, ◌≤◌, ◌<◌, ◌≡◌, ◌∙◌, ◌≢◌, Option, some, ℤ, pos, pos_part, neg_part, arith, ◌≤ℤ◌, ◌+ℤ◌,
  ◌-ℤ◌, update,
}
use cmsc125_lab3_sabandal_sa.CInt.{int_half, add_int, sub_int, wrap_int}
use cmsc125_lab3_sabandal_sa.Bank.{Account, Bank, get_account}
use cmsc125_lab3_sabandal_sa.Bank.Lookup.{IsSlot, IsValid, get_account-IsSlot}
use cmsc125_lab3_sabandal_sa.LockMgr.{slot_id}
use cmsc125_lab3_sabandal_sa.Discipline.{IsUsed, Claim, holds, IsFree, MayLock}

-- The thread is free again, with `paid` less in its purse and `taken` more.
pub record Settled (c : Claim) (paid taken : ℕ) (c' : Claim) : Type 0 where
  pub free : IsFree c'
  pub balance : c'.purse + paid ≡ c.purse + taken

-- A slot of the bank that may be locked: it is in the array.
pub slot_in_range : (bank : Bank) (i : ℕ) → IsValid bank → i < bank.num_accounts → IsUsed bank i
slot_in_range bank i v lt = (lt, omega (arith, v.size, v.bounded))

slot_id-IsSlot :
    (bank : Bank) (i : ℕ) (a : Account) → IsSlot bank i a → slot_id bank i ≡ a.account_id
slot_id-IsSlot bank i a slot = rw (slot.entry, slot_id)

-- What a lookup that succeeds says of the slot.
pub found_id :
    (bank : Bank) (id : ℤ) (i : ℕ)
    → IsValid bank
    → get_account bank id ≡ some i
    → (slot_id bank i ≡ id) × IsUsed bank i × (pos 0 ≤ℤ slot_id bank i)
found_id bank id i v e =
    let (a, slot, same, low) = get_account-IsSlot bank id i e in
    let at = slot_id-IsSlot bank i a slot ∙ same in
    (at, slot_in_range bank i v slot.in_use, rw at low)

-- A free thread may take any one lock.
pub MayLock-free : (bank : Bank) (c : Claim) (i : ℕ) → IsFree c → IsUsed bank i → MayLock bank c i
MayLock-free bank c i f lt = record {
  in_range = lt;
  ascending = λ k h. absurd (omega (arith, f.no_locks k));
  outside = f.no_mutex;
  settled = f.none_owed;
}

-- After one lock has been taken and given back the thread is as free as before.
module _ (c : Claim) (f : IsFree c) (i : ℕ) (known : ℕ → Option ℕ) (purse : ℕ) where
  pub unlock-IsFree : IsFree (record c {
    writes = update (update c.writes i 1) i 0;
    reads = update c.reads i 0;
    known = known;
    purse = purse;
  })
  unlock-IsFree = record {
    no_locks = λ k. ground (arith, f.no_locks k);
    no_mutex = f.no_mutex;
    no_credit = f.no_credit;
    none_owed = f.none_owed;
    none_due = f.none_due;
  }

  pub read_unlock-IsFree : IsFree (record c {
    writes = update c.writes i 0;
    reads = update (update c.reads i 1) i 0;
    known = known;
    purse = purse;
  })
  read_unlock-IsFree = record {
    no_locks = λ k. ground (arith, f.no_locks k);
    no_mutex = f.no_mutex;
    no_credit = f.no_credit;
    none_owed = f.none_owed;
    none_due = f.none_due;
  }

-- A thread that was free as `c` holds the write locks `i` and `j` and nothing else.
pub record HoldsBoth (c d : Claim) (i j : ℕ) : Type 0 where
  pub first : 0 < d.writes i
  pub second : 0 < d.writes j
  pub others : (k : ℕ) → k ≢ i → k ≢ j → holds d k ≡ 0
  pub no_mutex : d.mutex ≡ 0
  pub no_credit : d.credit ≡ 0
  pub none_owed : d.owed ≡ 0
  pub none_due : d.due ≡ 0
  pub same_purse : d.purse ≡ c.purse

pub unlock_both-IsFree :
    (c d : Claim) (i j : ℕ) (known : ℕ → Option ℕ) (purse : ℕ)
    → HoldsBoth c d i j
    → IsFree (record d {
      writes = update (update d.writes i 0) j 0;
      reads = update (update d.reads i 0) j 0;
      known = known;
      purse = purse;
    })
unlock_both-IsFree c d i j known purse h = record {
  no_locks = λ k. ground (arith, h.others k);
  no_mutex = h.no_mutex;
  no_credit = h.no_credit;
  none_owed = h.none_owed;
  none_due = h.none_due;
}

-- A sum that fits is exact.
pub add_int_fits :
    (r : ℤ) (amount : ℕ)
    → neg_part r ≡ 0
    → pos_part r + amount < int_half
    → (neg_part (add_int r (pos amount)) ≡ 0)
      × (pos_part (add_int r (pos amount)) ≡ pos_part r + amount)
unfolding add_int wrap_int ◌+ℤ◌
add_int_fits r amount low fits = ground arith

-- A difference that stays above zero is exact.
pub sub_int_fits :
    (r : ℤ) (amount : ℕ)
    → neg_part r ≡ 0
    → amount ≤ pos_part r
    → pos_part r < int_half
    → (neg_part (sub_int r (pos amount)) ≡ 0)
      × (pos_part (sub_int r (pos amount)) + amount ≡ pos_part r)
unfolding sub_int wrap_int ◌-ℤ◌
sub_int_fits r amount low enough fits = ground arith

-- What two stretches of code move adds up.
pub Settled-trans :
    (c d e : Claim) (p t p' t' : ℕ)
    → Settled c p t d
    → Settled d p' t' e
    → Settled c (p + p') (t + t') e
Settled-trans c d e p t p' t' g h = record {
  free = h.free;
  balance = omega (arith, g.balance, h.balance);
}
