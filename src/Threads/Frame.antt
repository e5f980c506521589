-- ===== src/Threads/Frame.antt =====
-- What no thread changes: the accounts that there are, with their identifiers. `get_account` may
-- therefore read the bank as it was loaded.
use cmsc125_lab3_sabandal_sa.Common.{
  ℕ, zero, suc, ◌≡◌, refl, sym, ap, subst, ◌∙◌, Bool, true, false, Option, some, List, [], ◌∷◌, map,
  ℤ, arith, length, get_elem?, modify, Option-cases, inl, inr, dec_lt, if_pos, if_neg,
  if◌then◌else◌,
}
use cmsc125_lab3_sabandal_sa.RwLock.{RwLock, write_lock, read_lock, release}
use cmsc125_lab3_sabandal_sa.Bank.{Account, Bank}
use cmsc125_lab3_sabandal_sa.Machine.{
  Shared, Action, wrlock, rdlock, unlock, load_balance, store_balance, lock_pool, Reply, perform,
  Prog, ret, call, with_lock,
}
use cmsc125_lab3_sabandal_sa.Timer.{timer_round}
use cmsc125_lab3_sabandal_sa.Transaction.{Transaction}
use cmsc125_lab3_sabandal_sa.Threads.{
  System, Turn, work, tick, after_round, advance, take_turn, run,
}
use cmsc125_lab3_sabandal_sa.Threads.Locks.{with_lock-some}
use cmsc125_lab3_sabandal_sa.Threads.Quiet.{quiet_bank}

abbrev pub ids_of : List Account → List ℤ
ids_of accounts = map (λ (a : Account). a.account_id) accounts

-- The same accounts in the same slots.
pub record SameAccountSet (before after : Bank) : Type 0 where
  pub ids : ids_of after.accounts ≡ ids_of before.accounts
  pub count : after.num_accounts ≡ before.num_accounts

ids_of-modify :
    (accounts : List Account) (k : ℕ) (f : Account → Account)
    → ((a : Account) → (f a).account_id ≡ a.account_id)
    → ids_of (modify accounts k f) ≡ ids_of accounts
ids_of-modify [] k f h = refl
ids_of-modify (a ∷ rest) zero f h = ap (◌∷ ids_of rest) (h a)
ids_of-modify (a ∷ rest) (suc k) f h = ap (a.account_id ∷◌) (ids_of-modify rest k f h)

pub length-of_ids : (xs ys : List Account) → ids_of xs ≡ ids_of ys → length xs ≡ length ys
length-of_ids [] [] h = refl
length-of_ids [] (y ∷ ys) h = cc
length-of_ids (x ∷ xs) [] h = cc
length-of_ids (x ∷ xs) (y ∷ ys) h = ap suc (length-of_ids xs ys (cc))

frame_refl : (b : Bank) → SameAccountSet b b
frame_refl b = record { ids = refl; count = refl }

frame_trans : (a b c : Bank) → SameAccountSet a b → SameAccountSet b c → SameAccountSet a c
frame_trans a b c p q = record { ids = q.ids ∙ p.ids; count = q.count ∙ p.count }

frame-of_eq : (b b' : Bank) → b' ≡ b → SameAccountSet b b'
frame-of_eq b b' e = record {
  ids = ap (λ (x : Bank). ids_of x.accounts) e;
  count = ap (λ (x : Bank). x.num_accounts) e;
}

lock-frame :
    (f : RwLock → Option RwLock) (k : ℕ) (m m' : Shared) (r : Unit {0})
    → with_lock f k m ≡ some (r, m')
    → SameAccountSet m.bank m'.bank
lock-frame f k m m' r h =
    let (a, l, e, e', same) = with_lock-some f k m m' r h in
    record {
      ids =
          ap (λ (x : Shared). ids_of x.bank.accounts) same
          ∙ ids_of-modify m.bank.accounts k (λ b. record b { lock = l }) (λ b. refl);
      count = ap (λ (x : Shared). x.bank.num_accounts) same;
    }

store-frame :
    (k : ℕ) (v : ℤ) (m m' : Shared) (r : Unit {0})
    → perform (store_balance k v) m ≡ some (r, m')
    → SameAccountSet m.bank m'.bank
unfolding perform
store-frame k v m m' r h = elim (Option-cases (get_elem? m.bank.accounts k)) [
  | inl e ↦ ground arith
  | inr (a, e) ↦ record {
    ids = ground (
      arith,
      ids_of-modify m.bank.accounts k (λ b. record b { balance_centavos = v }) (λ b. refl),
    );
    count = ground arith;
  }
]

perform-frame :
    (m m' : Shared) (a : Action) (r : Reply a)
    → perform a m ≡ some (r, m')
    → SameAccountSet m.bank m'.bank
unfolding perform
perform-frame m m' (wrlock k) r h = lock-frame write_lock k m m' r h
perform-frame m m' (rdlock k) r h = lock-frame read_lock k m m' r h
perform-frame m m' (unlock k) r h = lock-frame (λ l. some (release l)) k m m' r h
perform-frame m m' (load_balance k) r h = frame-of_eq m.bank m'.bank (ground arith)
perform-frame m m' (store_balance k v) r h = store-frame k v m m' r h
perform-frame m m' lock_pool r h = frame-of_eq m.bank m'.bank (quiet_bank lock_pool r m m' tt h)
perform-frame m m' a r h = frame-of_eq m.bank m'.bank (quiet_bank a r m m' tt h)

advance-frame :
    (s : System) (i : ℕ) (p : Prog Transaction)
    → SameAccountSet s.memory.bank (advance s i p).memory.bank
advance-frame s i (ret tx) = frame_refl s.memory.bank
advance-frame s i (call a k) = elim (Option-cases (perform a s.memory)) [
  | inl waits ↦ rw waits (frame_refl s.memory.bank)
  | inr ((r, m'), goes) ↦ rw goes (perform-frame s.memory m' a r goes)
]

round-frame :
    (s : System) (alive : Bool)
    → SameAccountSet s.memory.bank
        (if alive then after_round s (timer_round s.memory) else s).memory.bank
unfolding timer_round
round-frame s true = frame-of_eq s.memory.bank (timer_round s.memory).1.bank (ground arith)
round-frame s false = frame_refl s.memory.bank

turn-frame :
    (n : ℕ) (s : System) (t : Turn) → SameAccountSet s.memory.bank (take_turn n s t).memory.bank
unfolding take_turn
turn-frame n s tick = round-frame s s.timer_alive
turn-frame n s (work i) = elim (dec_lt i n) [
  | yes lt ↦
      subst (λ (q : System). SameAccountSet s.memory.bank q.memory.bank)
        {x = advance s i (s.worker i)} (sym (if_pos (dec_lt i n) lt (advance s i (s.worker i)) s))
        (advance-frame s i (s.worker i))
  | no out ↦
      subst (λ (q : System). SameAccountSet s.memory.bank q.memory.bank) {x = s}
        (sym (if_neg (dec_lt i n) out (advance s i (s.worker i)) s)) (frame_refl s.memory.bank)
]

-- Accounts stay. After any schedule from any state the same accounts, with the same identifiers,
-- are in the same slots of the bank, and as many of the slots are in use.
pub run-SameAccountSet :
    (n : ℕ) (s : System) (ts : List Turn) → SameAccountSet s.memory.bank (run n s ts).memory.bank
unfolding run
run-SameAccountSet n s [] = frame_refl s.memory.bank
run-SameAccountSet n s (t ∷ ts) =
    frame_trans s.memory.bank (take_turn n s t).memory.bank (run n (take_turn n s t) ts).memory.bank
      (turn-frame n s t) (run-SameAccountSet n (take_turn n s t) ts)
