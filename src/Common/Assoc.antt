-- ===== src/Common/Assoc.antt =====
-- Python's `dict`, as an association list in insertion order, and `in` on a list.
use mathlib.Core.Path.{◌≡◌, refl}
use mathlib.Core.Logic.{◌≢◌, inl, inr}
use mathlib.Core.Bool.{Bool, true, false, ◌||◌}
use mathlib.Core.Option.{Option, none, some}
use mathlib.Core.List.{List, [], ◌∷◌}
use native.Mathlib.Omega.{arith}
use automated_reconciliation.Common.Tests.{if◌then◌else◌, Bool-cases}
use automated_reconciliation.Common.Equality.{Eq, ◌==◌}

abbrev pub Dict {ℓ κ} : Type ℓ → Type κ → Type (ℓ ⊔ κ)
Dict K V = List (K × V)

module _ {ℓ} {A : Type ℓ} where
  abbrev pub is_some : Option A → Bool
  is_some none = false
  is_some (some _) = true

  -- The rest of a computation, on a value that is there.
  abbrev pub and_then {κ} : {B : Type κ} → Option A → (A → Option B) → Option B
  and_then none f = none
  and_then (some a) f = f a

module _ {ℓ} {K : Type ℓ} ⦃e : Eq K⦄ where
  pub beq_refl : (k : K) → (k == k) ≡ true
  beq_refl k = (e.equals_iff k k).1 refl

  pub beq_ne : (j k : K) → j ≢ k → (j == k) ≡ false
  beq_ne j k h = ground (arith, e.equals_iff j k)

  pub beq_eq : (j k : K) → (j == k) ≡ true → j ≡ k
  beq_eq j k = (e.equals_iff j k).0

  pub ne_of_beq : (j k : K) → (j == k) ≡ false → j ≢ k
  ne_of_beq j k h = ground (arith, e.equals_iff j k)

  -- `k in xs`
  abbrev pub contains : K → List K → Bool
  contains k [] = false
  contains k (x ∷ xs) = k == x || contains k xs

module _ {ℓ κ} {K : Type ℓ} {V : Type κ} ⦃e : Eq K⦄ where
  -- `d.get(k)`
  abbrev pub lookup : K → Dict K V → Option V
  lookup key [] = none
  lookup key ((other, value) ∷ rest) = if key == other then some value else lookup key rest

  -- `d[k] = v`
  abbrev pub insert : K → V → Dict K V → Dict K V
  insert k v [] = (k, v) ∷ []
  insert k v ((j, w) ∷ d) = if k == j then (k, v) ∷ d else (j, w) ∷ insert k v d

  -- `del d[k]` of a key that is there
  abbrev pub remove : K → Dict K V → Dict K V
  remove k [] = []
  remove k ((j, w) ∷ d) = let rest = remove k d in if k == j then rest else (j, w) ∷ rest

  pub lookup-insert :
      (j k : K) (v : V) (d : Dict K V)
      → lookup j (insert k v d) ≡ (if j == k then some v else lookup j d)
  lookup-insert j k v [] = refl
  lookup-insert j k v ((i, w) ∷ d) =
      ground (arith, e.equals_iff j k, e.equals_iff k i, e.equals_iff j i, lookup-insert j k v d)

  pub lookup-remove :
      (j k : K) (d : Dict K V) → lookup j (remove k d) ≡ (if j == k then none else lookup j d)
  lookup-remove j k [] = ground arith
  lookup-remove j k ((i, w) ∷ d) =
      ground (arith, e.equals_iff j k, e.equals_iff k i, e.equals_iff j i, lookup-remove j k d)

  -- No key stands twice.
  abbrev pub Distinct : Dict K V → Type κ
  Distinct [] = Unit
  Distinct ((k, v) ∷ d) = (lookup k d ≡ none) × Distinct d

module _ {ℓ κ} {K : Type ℓ} {V : Type κ} ⦃e : Eq K⦄ where
  pub insert-Distinct : (k : K) (v : V) (d : Dict K V) → Distinct d → Distinct (insert k v d)
  insert-Distinct k v [] h = (refl, tt)
  insert-Distinct k v ((j, w) ∷ d) h = elim (Bool-cases (k == j)) [
    | inl here ↦ rw here (rw (beq_eq k j here) h.0, h.1)
    | inr there ↦ rw there (
      ground (arith, lookup-insert j k v d, e.equals_iff j k, e.equals_iff k j, h.0),
      insert-Distinct k v d h.1,
    )
  ]

-- What a function makes of a value that may be missing.
abbrev pub map_option {ℓ κ} : {V : Type ℓ} {W : Type κ} → (V → W) → Option V → Option W
map_option f none = none
map_option f (some v) = some (f v)

-- Another value at every key.
module _ {ℓ} {K V W : Type ℓ} ⦃e : Eq K⦄ where
  abbrev pub map_values : (V → W) → Dict K V → Dict K W
  map_values f [] = []
  map_values f ((k, v) ∷ d) = (k, f v) ∷ map_values f d

  pub lookup-map_values :
      (f : V → W) (k : K) (d : Dict K V) → lookup k (map_values f d) ≡ map_option f (lookup k d)
  lookup-map_values f k [] = refl
  lookup-map_values f k ((j, v) ∷ d) = ground (arith, lookup-map_values f k d)

  pub map_values-Distinct : (f : V → W) (d : Dict K V) → Distinct d → Distinct (map_values f d)
  map_values-Distinct f [] h = tt
  map_values-Distinct f ((k, v) ∷ d) h =
      (rw (lookup-map_values f k d, h.0), map_values-Distinct f d h.1)
