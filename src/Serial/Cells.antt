-- ===== src/Serial/Cells.antt =====
-- The accesses to one account of the bank, when no other thread is about.
use cmsc125_lab3_sabandal_sa.Common.{
  ℕ, zero, suc, ◌≡◌, refl, sym, ap, ◌∙◌, ◌≢◌, true, false, Option, some, List, [], ◌∷◌, ℤ, arith,
  get_elem?, modify, get_elem?-modify_self, get_elem?-modify_ne,
}
use cmsc125_lab3_sabandal_sa.RwLock.{RwLock, open_lock, write_lock, read_lock, release}
use cmsc125_lab3_sabandal_sa.Bank.{Account}
use cmsc125_lab3_sabandal_sa.Machine.{
  Shared, with_lock, wrlock, rdlock, unlock, load_balance, store_balance, perform,
}

-- Two assignments to one element are one, and to two elements they may change places.
modify-modify :
    (xs : List Account) (i : ℕ) (f g : Account → Account)
    → modify (modify xs i f) i g ≡ modify xs i (λ a. g (f a))
modify-modify [] i f g = refl
modify-modify (x ∷ xs) zero f g = refl
modify-modify (x ∷ xs) (suc i) f g = ap (x ∷◌) (modify-modify xs i f g)

modify-at :
    (xs : List Account) (i : ℕ) (f g : Account → Account) (a : Account)
    → get_elem? xs i ≡ some a
    → f a ≡ g a
    → modify xs i f ≡ modify xs i g
modify-at [] i f g a h e = refl
modify-at (x ∷ xs) zero f g a h e = cc
modify-at (x ∷ xs) (suc i) f g a h e = ap (x ∷◌) (modify-at xs i f g a h e)

modify_comm :
    (xs : List Account) (i j : ℕ) (f g : Account → Account)
    → i ≢ j
    → modify (modify xs i f) j g ≡ modify (modify xs j g) i f
modify_comm [] i j f g h = refl
modify_comm (x ∷ xs) zero zero f g h = absurd (h refl)
modify_comm (x ∷ xs) zero (suc j) f g h = refl
modify_comm (x ∷ xs) (suc i) zero f g h = refl
modify_comm (x ∷ xs) (suc i) (suc j) f g h = ap (x ∷◌) (modify_comm xs i j f g (λ e. h (ap suc e)))

modify-same :
    (xs : List Account) (i : ℕ) (a : Account) → get_elem? xs i ≡ some a → modify xs i (λ b. a) ≡ xs
modify-same [] i a h = refl
modify-same (x ∷ xs) zero a h = cc
modify-same (x ∷ xs) (suc i) a h = ap (x ∷◌) (modify-same xs i a h)

abbrev pub with_accounts : List Account → Shared → Shared
with_accounts xs m = record m { bank = record m.bank { accounts = xs } }

abbrev pub written : RwLock
written = record { writer = true; readers = 0 }

abbrev pub being_read : RwLock
being_read = record { writer = false; readers = 1 }

-- One slot is set to an account.
abbrev pub put : ℕ → Account → Shared → Shared
put i a m = with_accounts (modify m.bank.accounts i (λ b. a)) m

-- The accesses to slot `i`, in a memory where the slot holds `a`.
module _ (m : Shared) (i : ℕ) (a : Account) (entry : get_elem? m.bank.accounts i ≡ some a) where
  pub modify-put :
      (f : Account → Account) → with_accounts (modify m.bank.accounts i f) m ≡ put i (f a) m
  modify-put f =
      ap (λ xs. with_accounts xs m) (modify-at m.bank.accounts i f (λ b. f a) a entry refl)

  with_lock-put :
      (f : RwLock → Option RwLock) (l : RwLock)
      → f a.lock ≡ some l
      → with_lock f i m ≡ some (tt, put i (record a { lock = l }) m)
  with_lock-put f l h =
      ground (arith, entry, h) ∙ ap (λ x. some (tt, x)) (modify-put (λ b. record b { lock = l }))

  pub wrlock-step :
      a.lock ≡ open_lock → perform (wrlock i) m ≡ some (tt, put i (record a { lock = written }) m)
  unfolding perform
  wrlock-step idle = with_lock-put write_lock written (ap write_lock idle)

  pub rdlock-step :
      a.lock ≡ open_lock
      → perform (rdlock i) m ≡ some (tt, put i (record a { lock = being_read }) m)
  unfolding perform
  rdlock-step idle = with_lock-put read_lock being_read (ap read_lock idle)

  unlock-written :
      a.lock ≡ written → perform (unlock i) m ≡ some (tt, put i (record a { lock = open_lock }) m)
  unfolding perform
  unlock-written held =
      with_lock-put (λ l. some (release l)) open_lock (ap (λ l. some (release l)) held)

  unlock-read :
      a.lock ≡ being_read
      → perform (unlock i) m ≡ some (tt, put i (record a { lock = open_lock }) m)
  unfolding perform
  unlock-read held =
      with_lock-put (λ l. some (release l)) open_lock (ap (λ l. some (release l)) held)

  load-step : perform (load_balance i) m ≡ some (a.balance_centavos, m)
  unfolding perform
  load-step = ground (arith, entry)

  store-step :
      (v : ℤ)
      → perform (store_balance i v) m ≡ some (tt, put i (record a { balance_centavos = v }) m)
  unfolding perform
  store-step v =
      ground (arith, entry)
      ∙ ap (λ x. some (tt, x)) (modify-put (λ b. record b { balance_centavos = v }))

  pub put-entry : (b : Account) → get_elem? (put i b m).bank.accounts i ≡ some b
  put-entry b = get_elem?-modify_self m.bank.accounts i (λ c. b) a entry

  pub put-other :
      (b : Account) (j : ℕ)
      → i ≢ j
      → get_elem? (put i b m).bank.accounts j ≡ get_elem? m.bank.accounts j
  put-other b j ne = get_elem?-modify_ne m.bank.accounts i j (λ c. b) ne

  put-put : (b c : Account) → put i c (put i b m) ≡ put i c m
  put-put b c = ap (λ xs. with_accounts xs m) (modify-modify m.bank.accounts i (λ x. b) (λ x. c))

  pub put_same : put i a m ≡ m
  put_same = ap (λ xs. with_accounts xs m) (modify-same m.bank.accounts i a entry)

pub put_comm :
    (m : Shared) (i j : ℕ) (a b : Account) → i ≢ j → put i a (put j b m) ≡ put j b (put i a m)
put_comm m i j a b ne =
    ap (λ xs. with_accounts xs m) (sym (modify_comm m.bank.accounts i j (λ x. a) (λ x. b) ne))

-- The same accesses in a memory whose slot `i` has been set to `b`.
module _ (m : Shared) (i : ℕ) (a : Account) (entry : get_elem? m.bank.accounts i ≡ some a)
    (b : Account) where
  pub at_load : perform (load_balance i) (put i b m) ≡ some (b.balance_centavos, put i b m)
  at_load = load-step (put i b m) i b (put-entry m i a entry b)

  pub at_store :
      (v : ℤ)
      → perform (store_balance i v) (put i b m)
        ≡ some (tt, put i (record b { balance_centavos = v }) m)
  at_store v =
      store-step (put i b m) i b (put-entry m i a entry b) v
      ∙ ap (λ x. some (tt, x)) (put-put m i a entry b (record b { balance_centavos = v }))

  pub at_unlock :
      b.lock ≡ written
      → perform (unlock i) (put i b m) ≡ some (tt, put i (record b { lock = open_lock }) m)
  at_unlock held =
      unlock-written (put i b m) i b (put-entry m i a entry b) held
      ∙ ap (λ x. some (tt, x)) (put-put m i a entry b (record b { lock = open_lock }))

  pub at_read_unlock :
      b.lock ≡ being_read
      → perform (unlock i) (put i b m) ≡ some (tt, put i (record b { lock = open_lock }) m)
  at_read_unlock held =
      unlock-read (put i b m) i b (put-entry m i a entry b) held
      ∙ ap (λ x. some (tt, x)) (put-put m i a entry b (record b { lock = open_lock }))

abbrev pub with_balance : ℤ → Account → Account
with_balance v a = record a { balance_centavos = v }
