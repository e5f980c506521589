-- ===== src/Common/Family.antt =====
-- Families indexed by number (threads, account slots): one value replaced, and the sum of a weight
-- over the first `n` values.
use Prim.Native.Nat.{ℕ, zero, suc, ◌+◌, ◌≤◌, ◌<◌}
use mathlib.Core.Logic.{◌≢◌, ite}
use mathlib.Core.Path.{◌≡◌, refl}
use native.Mathlib.Omega.{arith}
use native.Mathlib.Decide.{ℕ_discrete, dec_lt}

-- The value at `here` becomes `new`.
abbrev pub update {ℓ} : {V : Type ℓ} → (ℕ → V) → ℕ → V → ℕ → V
update values here new there = ite (ℕ_discrete here there) new (values there)

pub update_self {ℓ} :
    {V : Type ℓ} (values : ℕ → V) (here : ℕ) (new : V) → update values here new here ≡ new
update_self values here new = ground arith

pub update_ne {ℓ} :
    {V : Type ℓ} (values : ℕ → V) (here there : ℕ) (new : V)
    → here ≢ there
    → update values here new there ≡ values there
update_ne values here there new apart = ground arith

module _ {ℓ} {A : Type ℓ} (w : A → ℕ) where
  unfoldable pub total : ℕ → (ℕ → A) → ℕ
  total zero values = 0
  total (suc n) values = w (values n) + total n values

  pub total-zero : (values : ℕ → A) → total zero values ≡ 0
  unfolding total
  total-zero values = refl

  pub total-suc : (n : ℕ) (values : ℕ → A) → total (suc n) values ≡ w (values n) + total n values
  unfolding total
  total-suc n values = refl

  -- What happens beyond the end leaves a sum alone.
  beyond :
      (n : ℕ) (values : ℕ → A) (k : ℕ) (new : A)
      → n ≤ k
      → total n values ≡ total n (update values k new)
  unfolding total
  beyond zero values k new far = refl
  beyond (suc n) values k new far =
      let rest = beyond n values k new (omega arith) in ground (arith, rest)

  -- A sum changes by the change of the one summand that is replaced.
  pub total-update :
      (n : ℕ) (values : ℕ → A) (k : ℕ) (new : A)
      → k < n
      → total n (update values k new) + w (values k) ≡ total n values + w new
  unfolding total
  total-update zero values k new within = absurd (omega arith)
  total-update (suc n) values k new within = elim (ℕ_discrete k n) [
    | yes last ↦ let rest = beyond n values k new (omega (arith, last)) in ground (arith, rest)
    | no earlier ↦ let rest = total-update n values k new (omega arith) in ground (arith, rest)
  ]

  pub total-ge : (n : ℕ) (f : ℕ → A) (i : ℕ) → i < n → w (f i) ≤ total n f
  unfolding total
  total-ge zero f i h = absurd (omega arith)
  total-ge (suc n) f i h = elim (dec_lt i n) [
    | yes below ↦ omega (arith, total-ge n f i below)
    | no last ↦ ground arith
  ]

  -- Two summands at different indices.
  pub total-ge_two : (n : ℕ) (f : ℕ → A) (i j : ℕ) → i < j → j < n → w (f i) + w (f j) ≤ total n f
  unfolding total
  total-ge_two zero f i j h k = absurd (omega arith)
  total-ge_two (suc n) f i j h k = elim (dec_lt j n) [
    | yes below ↦ omega (arith, total-ge_two n f i j h below)
    | no last ↦ ground (arith, total-ge n f i (omega arith))
  ]

  -- A positive sum has a positive summand.
  pub total-pos : (n : ℕ) (f : ℕ → A) → 0 < total n f → (i : ℕ) × (i < n) × (0 < w (f i))
  unfolding total
  total-pos zero f h = absurd (omega arith)
  total-pos (suc n) f h = elim (dec_lt 0 (w (f n))) [
    | yes here ↦ (n, omega arith, here)
    | no zero_here ↦ let (i, lt, p) = total-pos n f (omega arith) in (i, omega arith, p)
  ]

  pub total-eq-zero : (n : ℕ) (f : ℕ → A) → ((i : ℕ) → i < n → w (f i) ≡ 0) → total n f ≡ 0
  unfolding total
  total-eq-zero zero f h = refl
  total-eq-zero (suc n) f h =
      omega (arith, h n (omega arith), total-eq-zero n f (λ i lt. h i (omega arith)))

-- Sums of families of two kinds, summand by summand.
module _ {ℓ} {A B C D : Type ℓ} where
  pub total-add :
      (u : A → ℕ) (v : B → ℕ) (w : C → ℕ) (x : D → ℕ) (n : ℕ) (f : ℕ → A) (g : ℕ → B) (h : ℕ → C)
      (k : ℕ → D)
      → ((i : ℕ) → i < n → u (f i) + v (g i) ≡ w (h i) + x (k i))
      → total u n f + total v n g ≡ total w n h + total x n k
  unfolding total
  total-add u v w x zero f g h k e = refl
  total-add u v w x (suc n) f g h k e =
      omega (arith, e n (omega arith), total-add u v w x n f g h k (λ i lt. e i (omega arith)))

module _ {ℓ} {A B : Type ℓ} where
  pub total-same :
      (u : A → ℕ) (v : B → ℕ) (n : ℕ) (f : ℕ → A) (g : ℕ → B)
      → ((i : ℕ) → i < n → u (f i) ≡ v (g i))
      → total u n f ≡ total v n g
  unfolding total
  total-same u v zero f g e = refl
  total-same u v (suc n) f g e =
      omega (arith, e n (omega arith), total-same u v n f g (λ i lt. e i (omega arith)))
