-- ===== src/Common/Results.antt =====
-- A call that may raise: its value, or the exception, of a type that each module chooses.
use mathlib.Core.Path.{◌≡◌, refl}
use mathlib.Core.Logic.{◌⊎◌, inl, inr}
use mathlib.Core.Bool.{Bool}
use automated_reconciliation.Common.Tests.{if◌then◌else◌}

pub data Result {ℓ κ} (E : Type ℓ) (A : Type κ) : Type (ℓ ⊔ κ) where
  ok : A → Result E A
  err : E → Result E A

infixl 5 ◌>>=◌ ◌>>◌
abbrev pub ◌>>=◌ {ℓ κ μ} :
    {E : Type ℓ} {A : Type κ} {B : Type μ} → Result E A → (A → Result E B) → Result E B
ok a >>= next = next a
err error >>= next = err error

abbrev pub ◌>>◌ {ℓ κ} : {E : Type ℓ} {B : Type κ} → Result E (Unit {0}) → Result E B → Result E B
first >> rest = first >>= λ _. rest

-- `if test: raise error`
abbrev pub raise_if {ℓ} : {E : Type ℓ} → Bool → E → Result E (Unit {0})
raise_if b e = if b then err e else ok tt

pub >>=-eq-ok {ℓ κ μ} :
    {E : Type ℓ} {A : Type κ} {B : Type μ} (first : Result E A) (next : A → Result E B) {value : B}
    → (first >>= next) ≡ ok value
    → (x : A) × (first ≡ ok x) × (next x ≡ ok value)
>>=-eq-ok (err error) next h = cc
>>=-eq-ok (ok x) next h = (x, refl, h)

-- To split on a computed result and keep the equation.
pub Result-cases {ℓ κ} :
    {E : Type ℓ} {A : Type κ} (r : Result E A) → ((a : A) × (r ≡ ok a)) ⊎ ((e : E) × (r ≡ err e))
Result-cases (ok a) = inl (a, refl)
Result-cases (err e) = inr (e, refl)
