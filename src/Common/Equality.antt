-- ===== src/Common/Equality.antt =====
-- Python's `==` on the types of dictionary keys, as an interface with its law.
use Prim.Native.Nat.{ℕ}
use mathlib.Core.Path.{◌≡◌, refl}
use mathlib.Core.Logic.{◌↔◌}
use mathlib.Core.Bool.{Bool, true, false, ◌&&◌}
use mathlib.Core.List.{List, [], ◌∷◌}
use native.Mathlib.Omega.{arith}
use automated_reconciliation.Common.Tests.{◌==◌ as nat_beq, ==_iff}

pub record Eq {ℓ} (A : Type ℓ) : Type ℓ where
  pub equals : A → A → Bool
  pub equals_iff : (x y : A) → (equals x y ≡ true) ↔ (x ≡ y)

infix 50 ◌==◌
abbrev pub ◌==◌ {ℓ} : {K : Type ℓ} ⦃eq : Eq K⦄ → K → K → Bool
◌==◌ ⦃eq⦄ = eq.equals

instance abbrev pub nat_eq : Eq ℕ
nat_eq = record { equals = nat_beq; equals_iff = ==_iff }

module _ {ℓ κ} {A : Type ℓ} {B : Type κ} ⦃e : Eq A⦄ ⦃f : Eq B⦄ where
  abbrev pub pair_beq : A × B → A × B → Bool
  pair_beq p q = e.equals p.0 q.0 && f.equals p.1 q.1

  pub pair_beq_iff : (p q : A × B) → (pair_beq p q ≡ true) ↔ (p ≡ q)
  pair_beq_iff p q = (
    (λ h. ground (arith, e.equals_iff p.0 q.0, f.equals_iff p.1 q.1)),
    (λ h. ground (arith, e.equals_iff p.0 q.0, f.equals_iff p.1 q.1)),
  )

  instance abbrev pub pair_eq : Eq (A × B)
  pair_eq = record { equals = pair_beq; equals_iff = pair_beq_iff }

module _ {ℓ} {A : Type ℓ} ⦃e : Eq A⦄ where
  abbrev pub list_beq : List A → List A → Bool
  list_beq [] [] = true
  list_beq (x ∷ l) (y ∷ r) = list_beq l r && e.equals x y
  list_beq _ _ = false

  pub list_beq_iff : (xs ys : List A) → (list_beq xs ys ≡ true) ↔ (xs ≡ ys)
  list_beq_iff [] [] = (λ _. refl, λ _. refl)
  list_beq_iff [] (y ∷ ys) = (λ h. cc, λ h. cc)
  list_beq_iff (x ∷ xs) [] = (λ h. cc, λ h. cc)
  list_beq_iff (x ∷ xs) (y ∷ ys) = (
    (λ h. ground (arith, e.equals_iff x y, list_beq_iff xs ys)),
    (λ h. ground (arith, e.equals_iff x y, list_beq_iff xs ys)),
  )

  instance abbrev pub list_eq : Eq (List A)
  list_eq = record { equals = list_beq; equals_iff = list_beq_iff }
