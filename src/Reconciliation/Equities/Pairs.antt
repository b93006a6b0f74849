-- ===== src/Reconciliation/Equities/Pairs.antt =====
-- `reconcile_equity_sources` of reconciliation_engine/reconciliation/equities.py: every pair of providers, with its lineage.
pub mod Reasons
use automated_reconciliation.Common.{
  ℕ, Bool, true, false, ◌&&◌, not, Option, none, some, List, [], ◌∷◌, ◌++◌, map, if◌then◌else◌,
  Text, upper, length, ltb, nat_eq, list_eq, pair_eq, Dict, Result, ok, err, ◌>>=◌, ◌>>◌, raise_if,
}
use automated_reconciliation.Common.Float.{Float}
use automated_reconciliation.Reconciliation.Validation.{BarKey, Bar, Frame}
use automated_reconciliation.Reconciliation.Equities.{
  OuterMerge, ReconcileError, too_few_providers, Status, matched, warn, break, Tolerances,
  ResultRow, is_na, reconcile_equity_bars,
}

-- MISSING_<provider>_OBSERVATION and PRICE_DIFFERENCE
pub data BreakReason : Type 0 where
  missing_observation : Text → BreakReason
  price_difference : BreakReason

abbrev pub is_break : Status → Bool
is_break break = true
is_break matched = false
is_break warn = false

abbrev pub pair_with {ℓ} : {A : Type ℓ} → A → A → A × A
pair_with x y = (x, y)

-- `itertools.combinations(items, 2)`
unfoldable pub combinations {ℓ} : {A : Type ℓ} → List A → List (A × A)
combinations [] = []
combinations (x ∷ xs) = map (pair_with x) xs ++ combinations xs

module _ (F : Float) where
  -- A row of the pairwise result.
  pub record PairRow : Type 0 where
    pub key : BarKey
    pub source_a : Text
    pub source_b : Text
    pub row : ResultRow F
    pub break_reason : Option BreakReason

  -- The masks in the order in which they are written: missing in a, missing in b, then the price.
  unfoldable pub reason_of : Text → Text → ResultRow F → Option BreakReason
  reason_of source_a source_b r =
      let missing_a = is_na F r.close_a in
      let missing_b = is_na F r.close_b in
      if is_break r.status && not missing_a && not missing_b
      then some price_difference
      else if missing_b
      then some (missing_observation (upper source_b))
      else if missing_a
      then some (missing_observation (upper source_a))
      else none

  abbrev pub pair_row : Text → Text → BarKey × ResultRow F → PairRow
  pair_row source_a source_b (key, r) = record {
    key = key;
    source_a = upper source_a;
    source_b = upper source_b;
    row = r;
    break_reason = reason_of source_a source_b r;
  }

  module _ (parse_date : Text → Option ℕ) (M : OuterMerge BarKey (Bar F)) (t : Tolerances F) where
    unfoldable pub reconcile_pair :
        (Text × Frame F) × (Text × Frame F) → Result ReconcileError (List PairRow)
    reconcile_pair ((source_a, bars_a), (source_b, bars_b)) =
        reconcile_equity_bars F parse_date M t bars_a bars_b >>= λ rows.
        ok (map (pair_row source_a source_b) rows)

    -- The loop over the pairs, with `pd.concat` of what it collects.
    unfoldable pub reconcile_pairs :
        List ((Text × Frame F) × (Text × Frame F)) → Result ReconcileError (List PairRow)
    reconcile_pairs [] = ok []
    reconcile_pairs (p ∷ ps) =
        reconcile_pair p >>= λ rows. (reconcile_pairs ps >>= λ rest. ok (rows ++ rest))

    unfoldable pub reconcile_equity_sources :
        List (Text × Frame F) → Result ReconcileError (List PairRow)
    reconcile_equity_sources providers = do
      raise_if (ltb (length providers) 2) too_few_providers
      reconcile_pairs (combinations providers)
