-- ===== src/Batch/Symbols/Tests.antt =====
-- Symbols and configurations at concrete values, and the theorems about them at an input.
use automated_reconciliation.Common.{
  ◌≡◌, refl, Option, none, some, List, [], ◌∷◌, Text, text, ok, err, nat_eq, list_eq, normalize,
  strip, lstrip, rstrip, to_upper, digits,
}
use automated_reconciliation.Common.Int.{ℤ, pos}
use automated_reconciliation.Batch.Symbols.{
  invalid_symbol, no_symbols, out_of_range, is_symbol, add_candidates, add_values,
  normalize_symbols, positive_environment_integer, get_scaling_configuration,
}

abbrev same_text : Text → Text
same_text s = s

abbrev values : List Text
values = text "spy, aapl,," ∷ text "SPY" ∷ []

abbrev others : List Text
others = text "aapl" ∷ text " spy " ∷ []

abbrev read_integer : Text → Option ℤ
read_integer [] = none
read_integer (c ∷ s) = some (pos 70)

lower_case : normalize_symbols (text "9a" ∷ []) ≡ err invalid_symbol
unfolding normalize_symbols add_values add_candidates is_symbol normalize strip lstrip rstrip
    to_upper
lower_case = refl

only_commas : normalize_symbols (text ", ," ∷ []) ≡ err no_symbols
unfolding normalize_symbols add_values add_candidates is_symbol normalize strip lstrip rstrip
    to_upper
only_commas = refl

too_many_workers : get_scaling_configuration read_integer none (some (text "70")) ≡ err out_of_range
unfolding get_scaling_configuration positive_environment_integer digits
too_many_workers = refl

stays_normal :
    normalize_symbols (text "SPY" ∷ text "AAPL" ∷ []) ≡ ok (text "SPY" ∷ text "AAPL" ∷ [])
unfolding normalize_symbols add_values add_candidates is_symbol normalize strip lstrip rstrip
    to_upper
stays_normal = refl
