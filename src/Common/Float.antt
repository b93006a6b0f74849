-- ===== src/Common/Float.antt =====
-- The floating-point numbers of the program, as an interface: `Num` stands for the values of a float64 column
-- that are no NaN, with a zero of either sign as one value. A missing value is `none` in `Option Num`. The laws are those of IEEE 754 comparison,
-- subtraction and absolute value that the program's control rules rely on.
use mathlib.Core.Path.{◌≡◌}
use mathlib.Core.Bool.{Bool, true, false, not}
use mathlib.Core.Option.{Option, none, some}
use native.Mathlib.Omega.{arith}
use automated_reconciliation.Common.Tests.{if◌then◌else◌}

pub record Float : Type 1 where
  pub Num : Type 0
  pub zero : Num
  pub sub : Num → Num → Num
  pub mul : Num → Num → Num
  pub abs : Num → Num
  pub lt : Num → Num → Bool
  pub is_finite : Num → Bool
  pub lt_irrefl : (a : Num) → lt a a ≡ false
  pub lt_trans : (a b c : Num) → lt a b ≡ true → lt b c ≡ true → lt a c ≡ true
  pub not_lt_trans : (a b c : Num) → lt b a ≡ false → lt c b ≡ false → lt c a ≡ false
  pub lt_connex : (a b : Num) → lt a b ≡ false → lt b a ≡ false → a ≡ b
  pub abs-sub : (a b : Num) → abs (sub a b) ≡ abs (sub b a)
  pub sub_self : (a : Num) → abs (sub a a) ≡ zero

module _ (F : Float) where
  -- `a <= b`, for numbers that are no NaN
  abbrev pub le : F.Num → F.Num → Bool
  le a b = not (F.lt b a)

  -- `max(a, b)`
  abbrev pub maximum : F.Num → F.Num → F.Num
  maximum a b = if F.lt a b then b else a

  -- `min(a, b)`
  abbrev pub minimum : F.Num → F.Num → F.Num
  minimum a b = if F.lt b a then b else a

  -- What is at least a maximum is at least each part.
  pub maximum-bound :
      (a b x : F.Num) → F.lt x (maximum a b) ≡ false → (F.lt x a ≡ false) × (F.lt x b ≡ false)
  maximum-bound a b x h = ground (arith, F.lt_trans x a b, F.not_lt_trans b a x)

  pub minimum-bound :
      (a b x : F.Num) → F.lt (minimum a b) x ≡ false → (F.lt a x ≡ false) × (F.lt b x ≡ false)
  minimum-bound a b x h = ground (arith, F.lt_trans b a x, F.not_lt_trans x a b)

  pub maximum_comm : (a b : F.Num) → maximum a b ≡ maximum b a
  maximum_comm a b = ground (arith, F.lt_connex a b, F.lt_irrefl a, F.lt_trans a b a)

  -- A number under a maximum is under one of its parts.
  pub lt-maximum : (a b x : F.Num) → F.lt a x ≡ false → F.lt (maximum a b) x ≡ false
  lt-maximum a b x h = ground (arith, F.lt_trans a b x, F.not_lt_trans x a b)

  -- Subtraction of columns: missing where either side is.
  abbrev pub difference : Option F.Num → Option F.Num → Option F.Num
  difference (some a) (some b) = some (F.sub a b)
  difference (some a) none = none
  difference none b = none

  -- `.abs().max(axis=1)` of two columns, which skips what is missing.
  abbrev pub reference : Option F.Num → Option F.Num → Option F.Num
  reference (some a) (some b) = some (maximum (F.abs a) (F.abs b))
  reference (some a) none = some (F.abs a)
  reference none (some b) = some (F.abs b)
  reference none none = none
