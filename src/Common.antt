-- ===== src/Common.antt =====
-- The names that the other modules share: the libraries', passed on, and those of the children.
mod Tests
mod Lists
mod Equality
mod Assoc
mod Strings
mod Results
mod Sorting
mod Decimal
mod Trimmed
mod Actions
pub mod Int
pub mod Float
pub use Tests.{ltb, leb, if◌then◌else◌, ltb→lt, lt→ltb, leb→le, Bool-cases, Option-cases}
pub use Lists.*
pub use Equality.*
pub use Assoc.*
pub use Results.*
pub use Actions.*
pub use Sorting.*
unfoldable pub use Decimal.{digits, decimal, zeros, padded}
pub use Decimal.{digits_fuel}
pub use Trimmed.{strip_twice, normalize_twice, strip-normalize}
unfoldable pub use Strings.{
  Text, text, is_space, to_upper, to_lower, upper, lower, lstrip, rstrip, strip, is_empty,
  normalize,
}
pub use Prim.Native.Nat.{ℕ, zero, suc, ◌+◌, ◌-◌, ◌*◌, ◌/◌, ◌%◌, ◌^◌, ◌≤◌, ◌<◌, min, max}
pub use Prim.Native.String.{String}
pub use mathlib.Core.Path.{◌≡◌, refl, sym, ap, ◌∙◌, subst}
pub use mathlib.Core.Logic.{◌≢◌, ◌↔◌, ◌⊎◌, inl, inr}
pub use mathlib.Core.Bool.{Bool, true, false, not, ◌&&◌, ◌||◌}
pub use mathlib.Core.Option.{Option, none, some}
pub use mathlib.Core.List.{List, [], ◌∷◌, ◌++◌, map}
pub use native.Mathlib.Omega.{arith}
