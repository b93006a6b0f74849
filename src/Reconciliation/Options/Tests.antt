-- ===== src/Reconciliation/Options/Tests.antt =====
-- The option comparison on concrete quotes, and the theorems about it at an input.
use automated_reconciliation.Common.{
  ℕ, ◌≡◌, ◌↔◌, ◌⊎◌, refl, true, Option, none, some, List, [], ◌∷◌, text, upper, to_upper, Dict,
  is_some, nat_eq, list_eq, pair_eq,
}
use automated_reconciliation.Common.Float.{difference}
use automated_reconciliation.Common.Int.{ℤ, pos}
use automated_reconciliation.Reconciliation.Validation.{has_duplicates}
use automated_reconciliation.Reconciliation.Equities.{break, exceeds}
use automated_reconciliation.Reconciliation.Equities.Pairs.{is_break}
use automated_reconciliation.Reconciliation.Tests.{units, outer_merge, parse_date, value_or}
use automated_reconciliation.Reconciliation.Options.{
  missing_label, pair_reason, Quote, OptionRow, option_row, RawOption, OptionFrame, ContractKey,
  option_columns, prepare_options, key_options, contract_of, merge_chains, reconcile_option_chain,
}
use automated_reconciliation.Reconciliation.Options.Blame.{option_row-break, pair_reason-misblames}
use automated_reconciliation.Reconciliation.Options.Chains.{
  IsComparison, lookup-reconcile_option_chain,
}

abbrev quote : ℕ → Quote units
quote close = record {
  contract_symbol = some (text "SPY1");
  close = some (pos close);
  bid = none;
  ask = none;
}

option_row-break_example :
    let left = option_row units (pos 3) (some (quote 100), none) in
    let right = option_row units (pos 3) (none, some (quote 107)) in
    let both = option_row units (pos 3) (some (quote 100), some (quote 107)) in
    ((left.status ≡ break) × (left.break_reason ≡ some (text "MISSING_ALPACA_CONTRACT")))
    × ((right.status ≡ break) × (right.break_reason ≡ some (text "MISSING_YAHOO_CONTRACT")))
    × (is_some both.break_reason ≡ is_break both.status)
    × ((both.status ≡ break) ↔ (
        (◌≡◌ {A = Option ℤ} (some (pos 100)) none)
        ⊎ (◌≡◌ {A = Option ℤ} (some (pos 107)) none)
        ⊎ (exceeds units (difference units (some (pos 100)) (some (pos 107))) (pos 3) ≡ true)))
option_row-break_example = option_row-break units (pos 3) (quote 100) (quote 107)

pair_reason-misblames_example :
    pair_reason
      (text "alpaca")
      (text "yahoo")
      (option_row units (pos 3) (some (quote 100), none)).break_reason
    ≡ some (missing_label (upper (text "alpaca")))
unfolding to_upper
pair_reason-misblames_example =
    pair_reason-misblames units (pos 3) (text "alpaca") (text "yahoo") (quote 100) refl

abbrev option : ℕ → RawOption units ℕ
option strike = record {
  underlying = some (text "spy");
  expiry = some (text "3");
  strike = some strike;
  option_type = some (text "call");
  trade_date = some (text "1");
  contract_symbol = some (text "SPY1");
  close = some (pos 100);
  bid = none;
  ask = none;
}

abbrev chain : List (RawOption units ℕ) → OptionFrame units ℕ
chain rows = record { columns = option_columns; rows = rows }

abbrev rows : Dict (ContractKey units ℕ) (OptionRow units)
rows = value_or [] (
    reconcile_option_chain units parse_date outer_merge (pos 3) (chain (option 5 ∷ []))
      (chain (option 6 ∷ [])))

lookup-reconcile_option_chain_example :
    IsComparison units parse_date outer_merge
      (pos 3)
      (chain (option 5 ∷ []))
      (chain (option 6 ∷ []))
      rows
unfolding reconcile_option_chain merge_chains prepare_options key_options contract_of has_duplicates
lookup-reconcile_option_chain_example =
    lookup-reconcile_option_chain units parse_date outer_merge (pos 3) (chain (option 5 ∷ []))
      (chain (option 6 ∷ [])) rows refl
