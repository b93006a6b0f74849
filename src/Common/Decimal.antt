-- ===== src/Common/Decimal.antt =====
-- `str` of a natural number, and the padding of `f"{n:05d}"`.
use Prim.Native.Nat.{ℕ, zero, suc, ◌+◌, ◌-◌, ◌/◌, ◌%◌, ◌<◌, ◌≤◌}
use mathlib.Core.Path.{◌≡◌, refl}
use mathlib.Core.Logic.{inl, inr}
use mathlib.Core.List.{[], ◌∷◌, ◌++◌}
use native.Mathlib.Omega.{arith}
use automated_reconciliation.Common.Tests.{if◌then◌else◌, ltb, Bool-cases}
use automated_reconciliation.Common.Lists.{length}
use automated_reconciliation.Common.Strings.{Text}

-- The digits of a number before others; a number has fewer digits than the fuel of `decimal`.
unfoldable pub digits : ℕ → ℕ → Text → Text
digits zero n after = after
digits (suc fuel) n after =
    let digit = 48 + n % 10 in
    let rest = digits fuel (n / 10) (digit ∷ after) in if ltb n 10 then digit ∷ after else rest

-- `str(n)`
abbrev pub decimal : ℕ → Text
decimal n = digits (suc n) n []

abbrev pub zeros : ℕ → Text
zeros zero = []
zeros (suc n) = 48 ∷ zeros n

-- `f"{n:0{width}d}"`
abbrev pub padded : ℕ → ℕ → Text
padded width n = zeros (width - length (decimal n)) ++ decimal n

-- Any fuel beyond the number itself gives the same digits.
pub digits_fuel :
    (fuel more n : ℕ) (after : Text)
    → n < fuel
    → n < more
    → digits fuel n after ≡ digits more n after
unfolding digits
digits_fuel zero more n after h k = ground arith
digits_fuel (suc fuel) zero n after h k = ground arith
digits_fuel (suc fuel) (suc more) n after h k = elim (Bool-cases (ltb n 10)) [
  | inl small ↦ rw small refl
  | inr large ↦
      let at_least : 10 ≤ n = ground arith in
      rw large (
        digits_fuel fuel more (n / 10) ((48 + n % 10) ∷ after) (omega (arith, h, at_least))
          (omega (arith, k, at_least)))
]
