-- ===== src/Base/Results.antt =====
-- Code that throws: an outcome is a value or an error of the component.
use mathlib.Core.Path.{◌≡◌, refl}
use mathlib.Core.Bool.{Bool, true, false}
use mathlib.Core.Logic.{◌⊎◌, inl, inr}
use mathlib.Core.Option.{Option, none, some}

pub data Result {ℓ κ} (E : Type ℓ) (A : Type κ) : Type (ℓ ⊔ κ) where
  ok : A → Result E A
  err : E → Result E A

-- The rest of a block runs on the value of its first line, and an error ends the block.
infixl 5 ◌>>=◌
abbrev pub ◌>>=◌ {ℓ κ μ} :
    {E : Type ℓ} {A : Type κ} {B : Type μ} → Result E A → (A → Result E B) → Result E B
(ok value) >>= rest = rest value
(err error) >>= rest = err error

-- An absent value is the error that the source throws for it.
abbrev pub or_fail {ℓ κ} : {E : Type ℓ} {A : Type κ} → Option A → E → Result E A
or_fail none error = err error
or_fail (some value) error = ok value

-- `if (!test) throw error`.
abbrev pub guard {ℓ} : {E : Type ℓ} → Bool → E → Result E (Unit {0})
guard false error = err error
guard true error = ok tt

infixl 5 ◌>>◌
abbrev pub ◌>>◌ {ℓ κ} : {E : Type ℓ} {B : Type κ} → Result E (Unit {0}) → Result E B → Result E B
first >> rest = first >>= (λ passed. rest)

pub Result-cases {ℓ κ} :
    {E : Type ℓ} {A : Type κ} (outcome : Result E A)
    → ((a : A) × (outcome ≡ ok a)) ⊎ ((e : E) × (outcome ≡ err e))
Result-cases (ok a) = inl (a, refl)
Result-cases (err e) = inr (e, refl)
