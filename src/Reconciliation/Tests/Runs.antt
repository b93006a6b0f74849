-- ===== src/Reconciliation/Tests/Runs.antt =====
-- The reconciliation on concrete bars, and the theorems about it at an input.
use automated_reconciliation.Common.{
  ◌≡◌, refl, ◌↔◌, true, false, some, List, [], ◌∷◌, map, text, lookup, Dict, Distinct, ok, All,
  filter_of, nat_eq, list_eq, pair_eq, normalize, strip,
}
use automated_reconciliation.Common.Int.{pos, ltb_ℤ, ◌-ℤ◌}
use automated_reconciliation.Reconciliation.Tests.{
  units, outer_merge, parse_date, value_or, yahoo, alpaca, tolerances, providers, pairwise,
}
use automated_reconciliation.Reconciliation.Validation.{
  BarKey, Bar, Frame, validate_equity_bars, complete, complete_all, key_all, check_bars,
  has_duplicates,
}
use automated_reconciliation.Reconciliation.Validation.Consistent.{
  AreEntries, validate_equity_bars_sound,
}
use automated_reconciliation.Reconciliation.Equities.{
  ResultRow, warn, break, row_status, hybrid_limit, check_tolerances, reconcile_equity_bars,
}
use automated_reconciliation.Reconciliation.Equities.Classify.{
  Cause, row_status-break_iff, row_status-warn_iff,
}
use automated_reconciliation.Reconciliation.Equities.Rows.{AtKey, lookup-reconcile_equity_bars}
use automated_reconciliation.Reconciliation.Equities.Pairs.{
  PairRow, combinations, reconcile_pair, reconcile_pairs, reconcile_equity_sources,
}
use automated_reconciliation.Reconciliation.Equities.Pairs.Reasons.{
  IsExplained, reconcile_equity_sources-IsExplained,
}
use automated_reconciliation.Reconciliation.Exceptions.{
  EquityException, from_pair, create_equity_exceptions,
}
use automated_reconciliation.Reconciliation.Exceptions.Breaks.{
  of_exception, of_row, is_break_pair, IsOpen, create_equity_exceptions-breaks,
}

abbrev keyed : Frame units → Dict BarKey (Bar units)
keyed f = value_or [] (validate_equity_bars units parse_date f)

validate_equity_bars_sound_example : AreEntries units parse_date yahoo (keyed yahoo)
unfolding validate_equity_bars complete complete_all key_all check_bars has_duplicates strip
    normalize
validate_equity_bars_sound_example =
    validate_equity_bars_sound units parse_date yahoo (keyed yahoo) refl

abbrev compared : Dict BarKey (ResultRow units)
compared = value_or [] (reconcile_equity_bars units parse_date outer_merge tolerances yahoo alpaca)

lookup-reconcile_equity_bars_example :
    (left : Dict BarKey (Bar units)) × (right : Dict BarKey (Bar units)) × (validate_equity_bars
        units parse_date yahoo
      ≡ ok left)
    × (validate_equity_bars units parse_date alpaca ≡ ok right)
    × AreEntries units parse_date yahoo left
    × AreEntries units parse_date alpaca right
    × Distinct compared
    × ((k : BarKey) → AtKey units tolerances (lookup k left) (lookup k right) (lookup k compared))
unfolding reconcile_equity_bars validate_equity_bars complete complete_all key_all check_bars
    has_duplicates check_tolerances strip normalize
lookup-reconcile_equity_bars_example =
    lookup-reconcile_equity_bars units parse_date outer_merge tolerances yahoo alpaca compared refl

row_status-break_iff_example :
    (row_status units tolerances (some (pos 100)) (some (pos 105)) ≡ break)
    ↔ Cause units tolerances (some (pos 100)) (some (pos 105))
row_status-break_iff_example =
    row_status-break_iff units tolerances (some (pos 100)) (some (pos 105))

row_status-warn_iff_example :
    (row_status units tolerances (some (pos 100)) (some (pos 102)) ≡ warn)
    ↔ ((ltb_ℤ (pos 1) (pos 2) ≡ true) × (ltb_ℤ (pos 3) (pos 2) ≡ false))
unfolding hybrid_limit ◌-ℤ◌
row_status-warn_iff_example = row_status-warn_iff units tolerances (pos 1) (pos 100) (pos 102) refl

reconcile_equity_sources-IsExplained_example : All (IsExplained units) pairwise
unfolding reconcile_equity_sources reconcile_pairs reconcile_pair combinations reconcile_equity_bars
    validate_equity_bars complete complete_all key_all check_bars has_duplicates check_tolerances
    strip normalize
reconcile_equity_sources-IsExplained_example =
    reconcile_equity_sources-IsExplained units parse_date outer_merge tolerances providers pairwise
      refl

abbrev ExceptionsOf : List (PairRow units) → Type 0
ExceptionsOf rows =
    (es : List (EquityException units)) × (create_equity_exceptions units (λ date. date ∷ [])
        (λ t. t) (λ i. i) (text "run") (map (from_pair units) rows)
      ≡ ok es)
    × (map (of_exception units) es ≡ map (of_row units) (filter_of (is_break_pair units) rows))
    × All (IsOpen units) es

create_equity_exceptions-breaks_example : ExceptionsOf pairwise
unfolding reconcile_equity_sources reconcile_pairs reconcile_pair combinations reconcile_equity_bars
    validate_equity_bars complete complete_all key_all check_bars has_duplicates check_tolerances
    strip normalize
create_equity_exceptions-breaks_example =
    create_equity_exceptions-breaks units (λ date. date ∷ []) (λ t. t) (λ i. i) (text "run")
      parse_date outer_merge tolerances providers pairwise refl
