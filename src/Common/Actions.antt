-- ===== src/Common/Actions.antt =====
-- Code that changes a state and may raise: what it has changed stays when it raises.
use mathlib.Core.Path.{◌≡◌, refl, ap}
use automated_reconciliation.Common.Results.{Result, ok, err}

abbrev pub Action {ℓ κ μ} : Type ℓ → Type κ → Type μ → Type (ℓ ⊔ κ ⊔ μ)
Action E S A = S → Result E A × S

module _ {ℓ κ μ} {E : Type ℓ} {S : Type κ} {A : Type μ} where
  -- A value or an exception that has nothing to do with the state.
  abbrev pub lift : Result E A → Action E S A
  lift r s = (r, s)

module _ {ℓ κ μ ν} {E : Type ℓ} {S : Type κ} {A : Type μ} {B : Type ν} where
  -- The rest of the code, from the state that a first part left.
  abbrev pub continue : (A → Action E S B) → Result E A × S → Result E B × S
  continue next (ok a, s) = next a s
  continue next (err e, s) = (err e, s)

  -- `a = first(); next(a)`
  abbrev pub bind : Action E S A → (A → Action E S B) → Action E S B
  bind first next s = continue next (first s)

  -- A result comes from results of both parts.
  pub bind-eq-ok :
      (first : Action E S A) (next : A → Action E S B) (s s' : S) (b : B)
      → bind first next s ≡ (ok b, s')
      → (a : A) × (m : S) × (first s ≡ (ok a, m)) × (next a m ≡ (ok b, s'))
  bind-eq-ok first next s s' b h = at_first (first s) refl h
    where
      at_first :
          (r : Result E A × S)
          → first s ≡ r
          → continue next r ≡ (ok b, s')
          → (a : A) × (m : S) × (first s ≡ (ok a, m)) × (next a m ≡ (ok b, s'))
      at_first (ok a, m) e h = (a, m, e, h)
      at_first (err x, m) e h = cc

  pub bind-eq :
      (first : Action E S A) (next : A → Action E S B) (s m : S) (a : A)
      → first s ≡ (ok a, m)
      → bind first next s ≡ next a m
  bind-eq first next s m a h = ap (continue next) h

  pub bind-lift-eq-ok :
      (first : Result E A) (next : A → Action E S B) (s s' : S) (b : B)
      → bind (lift first) next s ≡ (ok b, s')
      → (a : A) × (first ≡ ok a) × (next a s ≡ (ok b, s'))
  bind-lift-eq-ok (ok a) next s s' b h = (a, refl, h)
  bind-lift-eq-ok (err e) next s s' b h = cc

-- The same code, whose exceptions are a case of more.
abbrev pub map_err {ℓ κ μ} :
    {E : Type ℓ} {E' : Type κ} {A : Type μ} → (E → E') → Result E A → Result E' A
map_err f (ok a) = ok a
map_err f (err e) = err (f e)
