-- ===== src/Prelude/Result.antt =====
-- Fallible results, as `anyhow::Result`: which error it was is only reported, never acted on.
use mathlib.Core.Option.{Option, none, some}
use mathlib.Core.Path.{◌≡◌, refl}
use mathlib.Core.Logic.{◌⊎◌, inl, inr}
use mathlib.Core.Bool.{Bool, true, false}

-- `err` comes first: a step that fails ends the function.
pub data Result {ℓ} (T : Type ℓ) : Type ℓ where
  err : Result T
  ok : T → Result T

infixl 5 ◌>>◌ ◌>>=◌
-- `step?` whose value the rest takes.
abbrev pub ◌>>=◌ {ℓ ℓ'} : {T : Type ℓ} {U : Type ℓ'} → Result T → (T → Result U) → Result U
err >>= rest = err
ok value >>= rest = rest value

-- `step?;`
abbrev pub ◌>>◌ {ℓ} : {U : Type ℓ} → Result (Unit {0}) → Result U → Result U
step >> rest = step >>= (λ done. rest)

-- `if !test { bail!(…) }`
abbrev pub ensure : Bool → Result (Unit {0})
ensure false = err
ensure true = ok tt

-- `.context(…)?` on an option.
abbrev pub require {ℓ} : {T : Type ℓ} → Option T → Result T
require (some value) = ok value
require none = err

pub Result-cases {ℓ} : {T : Type ℓ} (r : Result T) → (r ≡ err) ⊎ ((a : T) × (r ≡ ok a))
Result-cases err = inl refl
Result-cases (ok a) = inr (a, refl)

-- What a step that went through says of its parts.
pub bind-eq {ℓ ℓ'} :
    {T : Type ℓ} {U : Type ℓ'} (step : Result T) (rest : T → Result U) (b : U)
    → (step >>= rest) ≡ ok b
    → (a : T) × (step ≡ ok a) × (rest a ≡ ok b)
bind-eq err rest b e = cc
bind-eq (ok a) rest b e = (a, refl, e)

pub require-eq :
    {T U : Type 0} (o : Option T) (rest : T → Result U) (b : U)
    → (require o >>= rest) ≡ ok b
    → (a : T) × (o ≡ some a) × (rest a ≡ ok b)
require-eq none rest b e = cc
require-eq (some a) rest b e = (a, refl, e)

pub unit-eq :
    {U : Type 0} (step : Result (Unit {0})) (rest : Result U) (b : U)
    → (step >> rest) ≡ ok b
    → (step ≡ ok tt) × (rest ≡ ok b)
unit-eq err rest b e = cc
unit-eq (ok tt) rest b e = (refl, e)

pub ensure-eq :
    {U : Type 0} (test : Bool) (rest : Result U) (b : U)
    → (ensure test >> rest) ≡ ok b
    → (test ≡ true) × (rest ≡ ok b)
ensure-eq false rest b e = cc
ensure-eq true rest b e = (refl, e)
