-- ===== src/Serial/Mirror.antt =====
-- How the shared memory between two transactions that run one after another shows a ledger.
use cmsc125_lab3_sabandal_sa.Common.{
  ℕ, false, negsuc, ℕ_discrete, ◌≡◌, ◌≢◌, refl, sym, ap, ◌∙◌, inl, inr, Option, none, some,
  Option-cases, List, ℤ, arith, ◌==ℤ◌, ==ℤ-eq, Bool-cases, length, get_elem?, length-modify,
  get_elem?-some, get_elem?-lt, get_elem?-modify_self, get_elem?-modify_ne,
}
use cmsc125_lab3_sabandal_sa.RwLock.{open_lock}
use cmsc125_lab3_sabandal_sa.Bank.{Account, Bank, get_account}
use cmsc125_lab3_sabandal_sa.Bank.Lookup.{get_account-IsSlot}
use cmsc125_lab3_sabandal_sa.BufferPool.{BufferPool}
use cmsc125_lab3_sabandal_sa.LockMgr.{slot_id}
use cmsc125_lab3_sabandal_sa.Machine.{Shared, with_pool, Prog, ◌>>=◌, exec}
use cmsc125_lab3_sabandal_sa.Machine.Exec.{exec-bind, exec-bind_none}
use cmsc125_lab3_sabandal_sa.Metrics.Check.{AllOpen}
use cmsc125_lab3_sabandal_sa.Threads.Invariant.{balance_of, balance_at}
use cmsc125_lab3_sabandal_sa.Serial.{Ledger, set_balance, and_then}
use cmsc125_lab3_sabandal_sa.Serial.Pool.{Holds}
use cmsc125_lab3_sabandal_sa.Serial.Cells.{with_balance}
use cmsc125_lab3_sabandal_sa.Serial.Money.{settle}

abbrev balance_found : Shared → Option ℕ → Option ℤ
balance_found m none = none
balance_found m (some i) = balance_at m.bank.accounts i

-- The balance of the account that `get_account` finds.
abbrev pub balance_in : Bank → Shared → ℤ → Option ℤ
balance_in bank m id = balance_found m (get_account bank id)

-- The locks are free, the pool holds the loaded accounts and no others, the clock shows `now`, and
-- the balances and the output are those of the ledger.
pub record Mirrors (bank : Bank) (now : ℤ) (loaded : List ℤ) (l : Ledger) (m : Shared)
    : Type 0 where
  pub size : length m.bank.accounts ≡ length bank.accounts
  pub opened : AllOpen m
  pub pool : Holds loaded m.pool
  pub clock : m.global_tick ≡ now
  pub balances : (id : ℤ) → balance_in bank m id ≡ l.balances id
  pub output : m.output ≡ l.printed

-- A run follows its specification: it waits for ever if there is no result, and else it ends with the
-- result in a memory of which `Q` holds.
abbrev pub Follows : {A : Type 0} → (A → Shared → Type 0) → Option A → Prog A → Shared → Type 0
Follows Q none p m = exec p m ≡ none
Follows Q (some x) p m = (m' : Shared) × (exec p m ≡ some (x, m')) × Q x m'

-- What goes on as another run does follows what that follows.
pub Follows-after :
    {A : Type 0} (R : A → Shared → Type 0) (o : Option A) (p q : Prog A) (m m' : Shared)
    → exec p m ≡ exec q m'
    → Follows R o q m'
    → Follows R o p m
Follows-after R none p q m m' e h = e ∙ h
Follows-after R (some x) p q m m' e (n, h, r) = (n, e ∙ h, r)

-- Steps in a row follow their specifications in a row.
pub Follows-bind :
    {A B : Type 0} (Q : A → Shared → Type 0) (R : B → Shared → Type 0) (o : Option A)
    (g : A → Option B) (p : Prog A) (f : A → Prog B) (m : Shared)
    → Follows Q o p m
    → ((x : A) (m' : Shared) → Q x m' → Follows R (g x) (f x) m')
    → Follows R (and_then o g) (p >>= f) m
Follows-bind Q R none g p f m h step = exec-bind_none p f m h
Follows-bind Q R (some x) g p f m (m', e, q) step =
    Follows-after R (g x) (p >>= f) (f x) m m' (exec-bind p f m m' x e) (step x m' q)

pub get_account-slot_id :
    (bank : Bank) (id : ℤ) (i : ℕ) → get_account bank id ≡ some i → slot_id bank i ≡ id
get_account-slot_id bank id i h =
    let (a, slot, same, low) = get_account-IsSlot bank id i h in
    ap (λ e. elim e [ none ↦ negsuc 0 | some a ↦ a.account_id ]) slot.entry ∙ same

-- Accounts with different identifiers stand in different slots.
pub get_account-apart :
    (bank : Bank) (id : ℤ) (i : ℕ) (other : ℤ) (j : ℕ)
    → get_account bank id ≡ some i
    → get_account bank other ≡ some j
    → (id ==ℤ other) ≡ false
    → i ≢ j
get_account-apart bank id i other j at h ne e =
    let same : id ≡ other =
      sym (get_account-slot_id bank id i at)
      ∙ ap (slot_id bank) e
      ∙ get_account-slot_id bank other j h in
    ground (arith, same)

module _ (bank : Bank) (now : ℤ) (loaded : List ℤ) (l : Ledger) (m : Shared)
    (mirror : Mirrors bank now loaded l m) where
  -- The account that an identifier stands for.
  pub entry_of :
      (id : ℤ) (i : ℕ)
      → get_account bank id ≡ some i
      → (a : Account) × (get_elem? m.bank.accounts i ≡ some a)
        × (a.lock ≡ open_lock)
        × (l.balances id ≡ some a.balance_centavos)
  entry_of id i h =
      let (b, slot, same, low) = get_account-IsSlot bank id i h in
      let (a, e) =
        get_elem?-some m.bank.accounts i
          (omega (arith, mirror.size, get_elem?-lt bank.accounts i b slot.entry)) in
      (
        a,
        e,
        mirror.opened i a e,
        sym (mirror.balances id) ∙ ap (balance_found m) h ∙ ap balance_of e,
      )

  pub missing : (id : ℤ) → get_account bank id ≡ none → l.balances id ≡ none
  missing id h = sym (mirror.balances id) ∙ ap (balance_found m) h

  pub with_pool-Mirrors :
      (loaded' : List ℤ) (pool : BufferPool)
      → Holds loaded' pool
      → Mirrors bank now loaded' l (with_pool pool m)
  with_pool-Mirrors loaded' pool h = record {
    size = mirror.size;
    opened = mirror.opened;
    pool = h;
    clock = mirror.clock;
    balances = mirror.balances;
    output = mirror.output;
  }

  module _ (id : ℤ) (i : ℕ) (at : get_account bank id ≡ some i) (v : ℤ) where
    settled_entry :
        (a : Account)
        → get_elem? m.bank.accounts i ≡ some a
        → get_elem? (settle i v m).bank.accounts i ≡ some (with_balance v a)
    settled_entry a e = get_elem?-modify_self m.bank.accounts i (with_balance v) a e

    other_entry :
        (j : ℕ) → i ≢ j → get_elem? (settle i v m).bank.accounts j ≡ get_elem? m.bank.accounts j
    other_entry j ne = get_elem?-modify_ne m.bank.accounts i j (with_balance v) ne

    settled-balances :
        (other : ℤ) → balance_in bank (settle i v m) other ≡ (set_balance l id v).balances other
    settled-balances other = elim (Bool-cases (id ==ℤ other)) [
      | inl e ↦
          let (a, entry, _, _) = entry_of id i at in
          ap (balance_in bank (settle i v m)) (sym (==ℤ-eq id other e))
          ∙ ap (balance_found (settle i v m)) at
          ∙ ap balance_of (settled_entry a entry)
          ∙ rw e refl
      | inr e ↦ elim (Option-cases (get_account bank other)) [
        | inl h ↦
            ap (balance_found (settle i v m)) h
            ∙ sym (ap (balance_found m) h)
            ∙ mirror.balances other
            ∙ rw e refl
        | inr (j, h) ↦
            ap (balance_found (settle i v m)) h
            ∙ ap balance_of (other_entry j (get_account-apart bank id i other j at h e))
            ∙ sym (ap (balance_found m) h)
            ∙ mirror.balances other
            ∙ rw e refl
      ]
    ]

    settled-AllOpen : AllOpen (settle i v m)
    settled-AllOpen k b h = elim (ℕ_discrete i k) [
      | yes e ↦
          let (a, entry, idle, _) = entry_of id i at in
          let here : some (with_balance v a) ≡ some b =
            sym (settled_entry a entry) ∙ ap (get_elem? (settle i v m).bank.accounts) e ∙ h in
          cc
      | no ne ↦ mirror.opened k b (sym (other_entry k ne) ∙ h)
    ]

    pub settle-Mirrors : Mirrors bank now loaded (set_balance l id v) (settle i v m)
    settle-Mirrors = record {
      size = length-modify m.bank.accounts i (with_balance v) ∙ mirror.size;
      opened = settled-AllOpen;
      pool = mirror.pool;
      clock = mirror.clock;
      balances = settled-balances;
      output = mirror.output;
    }
