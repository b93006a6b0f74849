-- ===== src/Common/Trimmed.antt =====
-- `strip` and `upper` done twice.
use Prim.Native.Nat.{ℕ}
use mathlib.Core.Path.{◌≡◌, refl, ap}
use mathlib.Core.Logic.{inl, inr}
use mathlib.Core.Bool.{false}
use mathlib.Core.List.{[], ◌∷◌}
use native.Mathlib.Omega.{arith}
use automated_reconciliation.Common.Tests.{Bool-cases}
use automated_reconciliation.Common.Strings.{
  Text, is_space, to_upper, upper, lstrip, rstrip, strip, is_empty, normalize, keep,
}

to_upper_space : (c : ℕ) → is_space (to_upper c) ≡ is_space c
unfolding to_upper
to_upper_space c = ground arith

to_upper_twice : (c : ℕ) → to_upper (to_upper c) ≡ to_upper c
unfolding to_upper
to_upper_twice c = ground arith

upper_twice : (s : Text) → upper (upper s) ≡ upper s
upper_twice [] = refl
upper_twice (c ∷ s) = rw (to_upper_twice c, upper_twice s) refl

keep-upper : (c : ℕ) (s : Text) → keep (to_upper c) (upper s) ≡ upper (keep c s)
keep-upper c [] = ground (arith, to_upper_space c)
keep-upper c (d ∷ s) = refl

rstrip-upper : (s : Text) → rstrip (upper s) ≡ upper (rstrip s)
unfolding rstrip
rstrip-upper [] = refl
rstrip-upper (c ∷ s) = rw (rstrip-upper s) (keep-upper c (rstrip s))

lstrip-upper : (s : Text) → lstrip (upper s) ≡ upper (lstrip s)
unfolding lstrip
lstrip-upper [] = refl
lstrip-upper (c ∷ s) = ground (arith, to_upper_space c, lstrip-upper s)

keep-rstrip : (c : ℕ) (s : Text) → rstrip s ≡ s → rstrip (keep c s) ≡ keep c s
unfolding rstrip
keep-rstrip c [] h = ground arith
keep-rstrip c (d ∷ s) h = ap (keep c) h

rstrip_twice : (s : Text) → rstrip (rstrip s) ≡ rstrip s
unfolding rstrip
rstrip_twice [] = refl
rstrip_twice (c ∷ s) = keep-rstrip c (rstrip s) (rstrip_twice s)

lstrip-keep : (c : ℕ) (s : Text) → is_space c ≡ false → lstrip (keep c s) ≡ keep c s
unfolding lstrip
lstrip-keep c [] h = ground arith
lstrip-keep c (d ∷ s) h = ground arith

lstrip-rstrip : (s : Text) → lstrip (rstrip (lstrip s)) ≡ rstrip (lstrip s)
unfolding lstrip rstrip
lstrip-rstrip [] = refl
lstrip-rstrip (c ∷ s) = elim (Bool-cases (is_space c)) [
  | inl space ↦ rw space (lstrip-rstrip s)
  | inr letter ↦ rw letter (lstrip-keep c (rstrip s) letter)
]

pub strip_twice : (s : Text) → strip (strip s) ≡ strip s
unfolding strip
strip_twice s = rw (lstrip-rstrip s) (rstrip_twice (lstrip s))

strip-upper : (s : Text) → strip (upper s) ≡ upper (strip s)
unfolding strip
strip-upper s = rw (lstrip-upper s) (rstrip-upper (lstrip s))

pub normalize_twice : (s : Text) → normalize (normalize s) ≡ normalize s
unfolding normalize
normalize_twice s = rw (strip-upper (strip s), strip_twice s) (upper_twice (strip s))

pub strip-normalize : (s : Text) → is_empty (strip (normalize s)) ≡ is_empty (strip s)
unfolding normalize
strip-normalize s = rw (strip-upper (strip s), strip_twice s) (upper_empty (strip s))
  where
    upper_empty : (s : Text) → is_empty (upper s) ≡ is_empty s
    upper_empty [] = refl
    upper_empty (c ∷ s) = refl
