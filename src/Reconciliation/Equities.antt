-- ===== src/Reconciliation/Equities.antt =====
-- `reconcile_equity_bars` and `reconcile_equity_sources` of reconciliation_engine/reconciliation/equities.py. The float
-- arithmetic, the reading of dates and the outer merge of pandas are parameters.
pub mod Classify
pub mod Rows
pub mod Pairs
use automated_reconciliation.Common.{
  ℕ, Bool, true, false, ◌&&◌, ◌||◌, not, ◌≡◌, Option, none, some, List, [], ◌∷◌, ◌++◌, map,
  if◌then◌else◌, Text, text, upper, Dict, lookup, Distinct, map_values, map_option, Eq, nat_eq,
  list_eq, pair_eq, Result, ok, err, ◌>>=◌, ◌>>◌, raise_if,
}
use automated_reconciliation.Common.Float.{Float, le, maximum, difference, reference}
use automated_reconciliation.Reconciliation.Validation.{
  BarKey, Bar, Frame, ValidationError, validate_equity_bars,
}

pub data Status : Type 0 where
  matched warn break : Status

-- What a full outer join of two frames with distinct keys has for a key, by what each side has.
abbrev pub joined {ℓ} : {A : Type ℓ} → Option A → Option A → Option (Option A × Option A)
joined none none = none
joined (some a) b = some (some a, b)
joined none (some b) = some (none, some b)

-- `pd.merge(left, right, on=keys, how="outer")` of frames that have no key twice.
pub record OuterMerge {ℓ κ} (K : Type ℓ) (V : Type κ) ⦃e : Eq K⦄ : Type (ℓ ⊔ κ) where
  pub merge : Dict K V → Dict K V → Dict K (Option V × Option V)
  pub merge-Distinct : (l r : Dict K V) → Distinct l → Distinct r → Distinct (merge l r)
  pub lookup-merge :
      (l r : Dict K V)
      → Distinct l
      → Distinct r
      → (k : K) → lookup k (merge l r) ≡ joined (lookup k l) (lookup k r)

-- The exceptions of `reconcile_equity_bars`.
pub data ReconcileError : Type 0 where
  bad_tolerance : ReconcileError
  invalid_bars : ValidationError → ReconcileError
  too_few_providers : ReconcileError

abbrev pub checked {ℓ} : {A : Type ℓ} → Result ValidationError A → Result ReconcileError A
checked (ok a) = ok a
checked (err e) = err (invalid_bars e)

module _ (F : Float) where
  pub record Tolerances : Type 0 where
    pub close_tolerance : F.Num
    pub warn_tolerance : Option F.Num
    pub break_pct_tolerance : Option F.Num
    pub warn_pct_tolerance : Option F.Num

  -- A row of the result, under its symbol and date.
  pub record ResultRow : Type 0 where
    pub close_a : Option F.Num
    pub close_b : Option F.Num
    pub close_difference : Option F.Num
    pub volume_a : Option F.Num
    pub volume_b : Option F.Num
    pub volume_difference : Option F.Num
    pub status : Status

  -- `warn_tolerance is not None and not 0 <= warn_tolerance <= close_tolerance`
  abbrev pub warn_out_of_range : F.Num → Option F.Num → Bool
  warn_out_of_range close none = false
  warn_out_of_range close (some limit) = not (le F F.zero limit && le F limit close)

  abbrev pub given_negative : Option F.Num → Bool
  given_negative none = false
  given_negative (some t) = F.lt t F.zero

  abbrev pub pct_out_of_order : Option F.Num → Option F.Num → Bool
  pct_out_of_order (some w) (some b) = F.lt b w
  pct_out_of_order (some w) none = false
  pct_out_of_order none b = false

  -- The ValueErrors about tolerances, in one.
  unfoldable pub check_tolerances : Tolerances → Result ReconcileError (Unit {0})
  check_tolerances t = do
    raise_if (F.lt t.close_tolerance F.zero) bad_tolerance
    raise_if (warn_out_of_range t.close_tolerance t.warn_tolerance) bad_tolerance
    raise_if (given_negative t.break_pct_tolerance) bad_tolerance
    raise_if (given_negative t.warn_pct_tolerance) bad_tolerance
    raise_if (pct_out_of_order t.warn_pct_tolerance t.break_pct_tolerance) bad_tolerance

  -- `pd.concat([limit, reference_price * pct], axis=1).max(axis=1)`, or the limit alone without a percentage
  unfoldable pub hybrid_limit : F.Num → Option F.Num → Option F.Num → F.Num
  hybrid_limit base none price = base
  hybrid_limit base (some pct) none = base
  hybrid_limit base (some pct) (some price) = maximum F base (F.mul price pct)

  -- `merged["close_difference"].abs() > limit`, which a missing difference does not pass
  abbrev pub exceeds : Option F.Num → F.Num → Bool
  exceeds none limit = false
  exceeds (some d) limit = F.lt limit (F.abs d)

  abbrev pub at_most : Option F.Num → F.Num → Bool
  at_most none limit = false
  at_most (some d) limit = le F (F.abs d) limit

  abbrev pub is_na : Option F.Num → Bool
  is_na none = true
  is_na (some _) = false

  -- Whether the mask for WARN selects a row; without a `warn_tolerance` there is none.
  unfoldable pub is_warned : Tolerances → Option F.Num → Option F.Num → Option F.Num → Bool
  is_warned t none price diff = false
  is_warned t (some base) price diff =
      exceeds diff (hybrid_limit base t.warn_pct_tolerance price)
      && at_most diff (hybrid_limit t.close_tolerance t.break_pct_tolerance price)

  -- The masks in the order in which they are written to the column: MATCH, then BREAK, then WARN.
  unfoldable pub row_status : Tolerances → Option F.Num → Option F.Num → Status
  row_status t a b =
      let diff = difference F a b in
      let price = reference F a b in
      let break_limit = hybrid_limit t.close_tolerance t.break_pct_tolerance price in
      let broken = if exceeds diff break_limit || is_na diff then break else matched in
      if is_warned t t.warn_tolerance price diff then warn else broken

  abbrev pub close_of : Option (Bar F) → Option F.Num
  close_of = map_option (λ b. b.close)

  abbrev pub volume_of : Option (Bar F) → Option F.Num
  volume_of = map_option (λ b. b.volume)

  unfoldable pub result_row : Tolerances → Option (Bar F) × Option (Bar F) → ResultRow
  result_row t (a, b) = record {
    close_a = close_of a;
    close_b = close_of b;
    close_difference = difference F (close_of a) (close_of b);
    volume_a = volume_of a;
    volume_b = volume_of b;
    volume_difference = difference F (volume_of a) (volume_of b);
    status = row_status t (close_of a) (close_of b);
  }

  module _ (parse_date : Text → Option ℕ) (M : OuterMerge BarKey (Bar F)) where
    unfoldable pub reconcile_equity_bars :
        Tolerances → Frame F → Frame F → Result ReconcileError (Dict BarKey ResultRow)
    reconcile_equity_bars t yahoo alpaca = do
      check_tolerances t
      left ← checked (validate_equity_bars F parse_date yahoo)
      right ← checked (validate_equity_bars F parse_date alpaca)
      ok (map_values (result_row t) (M.merge left right))
