-- ===== src/Threads/MoneyBounds.antt =====
-- What a thread may count on when it reads a balance.
use cmsc125_lab3_sabandal_sa.Common.{
  ℕ, zero, suc, ◌<◌, ◌≤◌, ◌≡◌, some, List, [], ◌∷◌, ℤ, pos_part, arith, total-ge,
}
use cmsc125_lab3_sabandal_sa.Bank.{Account}
use cmsc125_lab3_sabandal_sa.Discipline.{Claim, SeenBalance}
use cmsc125_lab3_sabandal_sa.Threads.Invariant.{balance_at, money_in, MoneyOk}

pub balance-le-money :
    (accounts : List Account) (k : ℕ) (b : ℤ)
    → balance_at accounts k ≡ some b
    → pos_part b ≤ money_in accounts
balance-le-money [] k b e = cc
balance-le-money (a ∷ rest) zero b e = ground arith
balance-le-money (a ∷ rest) (suc k) b e = omega (arith, balance-le-money rest k b e)

-- A balance that is read is as the logic promises.
pub load-Rely :
    (n supply : ℕ) (g : ℕ → Claim) (accounts : List Account) (t k : ℕ) (r : ℤ)
    → MoneyOk n supply g accounts
    → t < n
    → balance_at accounts k ≡ some r
    → SeenBalance supply (g t) k r
load-Rely n supply g accounts t k r ok lt e = record {
  nonneg = ok.nonneg k r e;
  within = omega (
    arith,
    ok.conserved,
    balance-le-money accounts k r e,
    total-ge (λ (c : Claim). c.purse) n g t lt,
  );
  again = λ u q. ground (arith, ok.fresh t k u lt q);
}
