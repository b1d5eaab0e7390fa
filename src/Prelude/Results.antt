-- ===== src/Prelude/Results.antt =====
-- Rust's `Result` and the operations on `Option` that lead to one.
use mathlib.Core.Path.{◌≡◌, refl, ap}
use mathlib.Core.Bool.{Bool, true, false}
use mathlib.Core.Option.{Option, none, some}

pub data Result {ℓ κ} (E : Type κ) (A : Type ℓ) : Type (ℓ ⊔ κ) where
  ok : A → Result E A
  err : E → Result E A

infixl 5 ◌>>=◌ ◌>>◌
-- `step?` followed by the rest of the function
abbrev pub ◌>>=◌ {ℓ} : {E A B : Type ℓ} → Result E A → (A → Result E B) → Result E B
ok value >>= rest = rest value
err failure >>= rest = err failure

abbrev pub ◌>>◌ {ℓ} : {E B : Type ℓ} → Result E (Unit {ℓ}) → Result E B → Result E B
step >> rest = step >>= λ _. rest

-- `if !test { return Err(failure) }`
abbrev pub guard : {E : Type 0} → Bool → E → Result E (Unit {0})
guard test failure = elim test [ true ↦ ok tt | false ↦ err failure ]

-- `option.ok_or_else(failure)?`
abbrev pub ok_or : {E A : Type 0} → Option A → E → Result E A
ok_or none failure = err failure
ok_or (some value) failure = ok value

-- `result.map_err(|_| failure)?`
abbrev pub or_err : {E F A : Type 0} → Result F A → E → Result E A
or_err (ok value) failure = ok value
or_err (err _) failure = err failure

-- A chain that succeeds has a first step that succeeds.
pub bind_inversion {ℓ} :
    {E A B : Type ℓ} (step : Result E A) (rest : A → Result E B) {result : B}
    → (step >>= rest) ≡ ok result
    → (value : A) × (step ≡ ok value) × (rest value ≡ ok result)
bind_inversion (err failure) rest done = cc
bind_inversion (ok value) rest done = (value, refl, done)

pub ok-injective {ℓ κ} :
    {E : Type κ} {A : Type ℓ} {a b : A} → ◌≡◌ {A = Result E A} (ok a) (ok b) → a ≡ b
ok-injective h = cc

-- A guard that lets through has a test that holds.
pub guard_inversion :
    {E : Type 0} (test : Bool) (failure : E) {value : Unit {0}}
    → guard test failure ≡ ok value
    → test ≡ true
guard_inversion true failure e = refl
guard_inversion false failure e = cc

-- An option that is unwrapped has a value.
pub ok_or_inversion :
    {E A : Type 0} (o : Option A) (failure : E) {value : A}
    → ok_or o failure ≡ ok value
    → o ≡ some value
ok_or_inversion none failure e = cc
ok_or_inversion (some a) failure e = ap some (ok-injective e)

pub or_err_inversion :
    {E F A : Type 0} (r : Result F A) (failure : E) {value : A}
    → or_err r failure ≡ ok value
    → r ≡ ok value
or_err_inversion (ok a) failure e = ap ok (ok-injective e)
or_err_inversion (err f) failure e = cc

-- A check of the last value that passes leaves it.
pub checked_inversion :
    {E A : Type 0} (check : Result E (Unit {0})) (a : A) {value : A}
    → (check >> ok a) ≡ ok value
    → (check ≡ ok tt) × (a ≡ value)
checked_inversion (ok tt) a e = (refl, ok-injective e)
checked_inversion (err failure) a e = cc

-- A chain succeeds where its parts do.
pub bind_total {ℓ} :
    {E A B : Type ℓ} (step : Result E A) (rest : A → Result E B) (a : A)
    → step ≡ ok a
    → ((b : B) × (rest a ≡ ok b))
    → (b : B) × ((step >>= rest) ≡ ok b)
bind_total step rest a done (b, later) = (b, rw done later)

-- A guard in a chain that succeeds lets through.
pub guard_bind :
    {E A : Type 0} (test : Bool) (failure : E) (rest : Result E A) {value : A}
    → (guard test failure >>= λ _. rest) ≡ ok value
    → (test ≡ true) × (rest ≡ ok value)
guard_bind true failure rest e = (refl, e)
guard_bind false failure rest e = cc
