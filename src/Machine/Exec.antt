-- ===== src/Machine/Exec.antt =====
-- Runs of a function alone: one access, and a sequence.
use cmsc125_lab3_sabandal_sa.Common.{◌≡◌, refl, ap, sym, ◌∙◌, none, some, Option-cases, inl, inr}
use cmsc125_lab3_sabandal_sa.Machine.{Shared, Action, Reply, perform, Prog, ret, call, ◌>>=◌, exec}

pub exec-call :
    {A : Type 0} (a : Action) (k : Reply a → Prog A) (m m' : Shared) (r : Reply a)
    → perform a m ≡ some (r, m')
    → exec (call a k) m ≡ exec (k r) m'
unfolding exec
exec-call a k m m' r h = rw (exec, h) refl

pub exec-wait :
    {A : Type 0} (a : Action) (k : Reply a → Prog A) (m : Shared)
    → perform a m ≡ none
    → exec (call a k) m ≡ none
unfolding exec
exec-wait a k m h = rw (exec, h) refl

-- A function that returns goes on with what follows it.
pub exec-bind :
    {A B : Type 0} (p : Prog A) (f : A → Prog B) (m m' : Shared) (x : A)
    → exec p m ≡ some (x, m')
    → exec (p >>= f) m ≡ exec (f x) m'
unfolding exec
exec-bind (ret y) f m m' x h =
    ap (λ o. elim o [ none ↦ exec (f y) m | some (z, s) ↦ exec (f z) s ]) h
exec-bind (call a k) f m m' x h = elim (Option-cases (perform a m)) [
  | inl e ↦ absurd (cc (h, exec-wait a k m e))
  | inr ((r, n), e) ↦
      exec-call a (λ s. k s >>= f) m n r e
      ∙ exec-bind (k r) f n m' x (sym (exec-call a k m n r e) ∙ h)
]

pub exec-ret : {A : Type 0} (x : A) (m : Shared) → exec (ret x) m ≡ some (x, m)
unfolding exec
exec-ret x m = refl

-- What waits without end is not gone on with.
pub exec-bind_none :
    {A B : Type 0} (p : Prog A) (f : A → Prog B) (m : Shared)
    → exec p m ≡ none
    → exec (p >>= f) m ≡ none
unfolding exec
exec-bind_none (ret y) f m h = cc
exec-bind_none (call a k) f m h = elim (Option-cases (perform a m)) [
  | inl e ↦ exec-wait a (λ s. k s >>= f) m e
  | inr ((r, n), e) ↦
      exec-call a (λ s. k s >>= f) m n r e
      ∙ exec-bind_none (k r) f n (sym (exec-call a k m n r e) ∙ h)
]

-- How the calls of a sequence are grouped does not matter.
pub exec-bind_assoc :
    {A B C : Type 0} (p : Prog A) (f : A → Prog B) (g : B → Prog C) (m : Shared)
    → exec ((p >>= f) >>= g) m ≡ exec (p >>= λ x. f x >>= g) m
unfolding exec
exec-bind_assoc (ret y) f g m = refl
exec-bind_assoc (call a k) f g m = elim (Option-cases (perform a m)) [
  | inl e ↦
      exec-wait a (λ s. (k s >>= f) >>= g) m e ∙ sym (exec-wait a (λ s. k s >>= λ x. f x >>= g) m e)
  | inr ((r, n), e) ↦
      exec-call a (λ s. (k s >>= f) >>= g) m n r e
      ∙ exec-bind_assoc (k r) f g n
      ∙ sym (exec-call a (λ s. k s >>= λ x. f x >>= g) m n r e)
]
