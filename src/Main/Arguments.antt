-- ===== src/Main/Arguments.antt =====
-- What `parse_args` of src/main.c accepts.
use cmsc125_lab3_sabandal_sa.Common.{
  ℕ, ◌<◌, ◌≡◌, refl, sym, ap, ◌∙◌, subst, ◌⊎◌, inl, inr, Bool, true, false, not, ◌||◌, Option, none,
  some, Option-cases, List, [], ◌∷◌, ℤ, pos, pos_part, arith, leb_ℤ, if◌then◌else◌, codes,
  same_text, same_text-eq,
}
use cmsc125_lab3_sabandal_sa.CInt.{int_half}
use cmsc125_lab3_sabandal_sa.Parser.Scan.{◌>>=◌}
use cmsc125_lab3_sabandal_sa.Parser.Files.Accounts.{bind-some}
use cmsc125_lab3_sabandal_sa.Main.{
  Config, Strtol, strtol, is_end, checked_tick, parse_tick_ms, after_prefix, first_config,
  with_tick, parse_argument, parse_arguments, is_set, is_prevention, checked_config, parse_args,
}

-- A tick length that an `int` holds, not zero and not negative.
abbrev pub IsTick : ℤ → Type 0
IsTick tick = (0 < pos_part tick) × (pos_part tick < int_half)

guard-some :
    {A : Type 0} (b : Bool) (o : Option A) (a : A)
    → (if b then none else o) ≡ some a
    → (b ≡ false) × (o ≡ some a)
guard-some true o a h = cc
guard-some false o a h = (refl, h)

value-inj : {A : Type 0} (a b : A) → Path (Option A) (some a) (some b) → a ≡ b
value-inj a b h = ap (λ o. elim o [ none ↦ a | some x ↦ x ]) h

checked_tick-IsTick : (r : Strtol) (tick : ℤ) → checked_tick r ≡ some tick → IsTick tick
checked_tick-IsTick r tick h =
    let (ok, e) = guard-some _ (some r.parsed) tick h in
    let same = value-inj r.parsed tick e in ground (arith, ok, same)

parse_tick_ms-IsTick : (value : List ℕ) (tick : ℤ) → parse_tick_ms value ≡ some tick → IsTick tick
unfolding parse_tick_ms
parse_tick_ms-IsTick value tick h =
    let (ok, e) = guard-some (is_end value) (strtol value >>= checked_tick) tick h in
    let (r, _, e') = bind-some (strtol value) checked_tick tick e in checked_tick-IsTick r tick e'

with_tick-IsTick :
    (config next : Config) (value : List ℕ)
    → with_tick config (parse_tick_ms value) ≡ some next
    → IsTick next.tick_ms
with_tick-IsTick config next value h = elim (Option-cases (parse_tick_ms value)) [
  | inl e ↦ absurd (cc (sym (ap (with_tick config) e) ∙ h))
  | inr (tick, e) ↦
      let same =
        value-inj (record config { tick_ms = tick }) next (sym (ap (with_tick config) e) ∙ h) in
      subst (λ (c : Config). IsTick c.tick_ms) same (parse_tick_ms-IsTick value tick e)
]

-- A search that is tried first, and what is done without it.
option-or :
    {A B : Type 0} (o : Option A) (f : A → Option B) (g : Option B) (b : B)
    → (elim o [ some v ↦ f v | none ↦ g ]) ≡ some b
    → ((v : A) × (f v ≡ some b)) ⊎ (g ≡ some b)
option-or none f g b h = inr h
option-or (some v) f g b h = inl (v, h)

same-IsTick :
    (config next : Config)
    → IsTick config.tick_ms
    → Path (Option Config) (some config) (some next)
    → IsTick next.tick_ms
same-IsTick config next tick h =
    subst (λ (c : Config). IsTick c.tick_ms) (value-inj config next h) tick

parse_argument-IsTick :
    (config next : Config) (arg : List ℕ)
    → IsTick config.tick_ms
    → parse_argument config arg ≡ some next
    → IsTick next.tick_ms
unfolding parse_argument
parse_argument-IsTick config next arg tick h =
    elim (option-or (after_prefix (codes "--accounts=") arg) _ _ next h) [
      | inl (v, e) ↦ same-IsTick (record config { accounts_file = some v }) next tick e
      | inr h' ↦ elim (option-or (after_prefix (codes "--trace=") arg) _ _ next h') [
        | inl (v, e) ↦ same-IsTick (record config { trace_file = some v }) next tick e
        | inr h'' ↦ elim (option-or (after_prefix (codes "--deadlock=") arg) _ _ next h'') [
          | inl (v, e) ↦ same-IsTick (record config { deadlock_mode = some v }) next tick e
          | inr h''' ↦ elim (option-or (after_prefix (codes "--tick-ms=") arg) _ _ next h''') [
            | inl (v, e) ↦ with_tick-IsTick config next v e
            | inr last ↦ verbose (same_text arg (codes "--verbose")) last
          ]
        ]
      ]
    ]
  where
    verbose :
        (b : Bool)
        → (if b then some (record config { verbose = pos 1 }) else none) ≡ some next
        → IsTick next.tick_ms
    verbose true e = same-IsTick (record config { verbose = pos 1 }) next tick e
    verbose false e = cc

parse_arguments-IsTick :
    (config next : Config) (args : List (List ℕ))
    → IsTick config.tick_ms
    → parse_arguments config args ≡ some next
    → IsTick next.tick_ms
unfolding parse_arguments
parse_arguments-IsTick config next [] tick h = same-IsTick config next tick h
parse_arguments-IsTick config next (arg ∷ args) tick h =
    let (between, e, h') =
      bind-some (parse_argument config arg) (λ (c : Config). parse_arguments c args) next h in
    parse_arguments-IsTick between next args (parse_argument-IsTick config between arg tick e) h'

-- Both files are named, the deadlock mode is prevention, and the tick has a length.
pub record IsComplete (config : Config) : Type 0 where
  pub accounts : (name : List ℕ) × (config.accounts_file ≡ some name)
  pub trace : (name : List ℕ) × (config.trace_file ≡ some name)
  pub prevention : config.deadlock_mode ≡ some (codes "prevention")
  pub tick : IsTick config.tick_ms

set-some : (o : Option (List ℕ)) → is_set o ≡ true → (name : List ℕ) × (o ≡ some name)
set-some none h = cc
set-some (some name) h = (name, refl)

prevention-eq : (o : Option (List ℕ)) → is_prevention o ≡ true → o ≡ some (codes "prevention")
prevention-eq none h = cc
prevention-eq (some mode) h = ap some (same_text-eq mode (codes "prevention") h)

checked_config-IsComplete :
    (read config : Config)
    → IsTick read.tick_ms
    → checked_config read ≡ some config
    → IsComplete config
checked_config-IsComplete read config tick h =
    let (given, after) =
      guard-some
        (not (is_set read.accounts_file)
          || not (is_set read.trace_file)
          || not (is_set read.deadlock_mode))
        _ config h in
    let (mode, after') = guard-some (not (is_prevention read.deadlock_mode)) _ config after in
    let (positive, last) = guard-some (leb_ℤ read.tick_ms (pos 0)) (some read) config after' in
    subst IsComplete (value-inj read config last) (record {
      accounts = set-some read.accounts_file (ground arith);
      trace = set-some read.trace_file (ground arith);
      prevention = prevention-eq read.deadlock_mode (ground arith);
      tick = tick;
    })

-- What `parse_args` accepts is complete: the configuration names an accounts file and a trace
-- file, its deadlock mode is the text `prevention`, and its tick length is from 1 to `INT_MAX`.
pub parse_args-IsComplete :
    (args : List (List ℕ)) (config : Config) → parse_args args ≡ some config → IsComplete config
unfolding parse_args
parse_args-IsComplete args config h =
    let (read, e, h') = bind-some (parse_arguments first_config args) checked_config config h in
    checked_config-IsComplete read config
      (parse_arguments-IsTick first_config read args (omega arith, omega arith) e) h'
