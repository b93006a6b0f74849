-- ===== src/Reconciliation/Exceptions.antt =====
-- `create_equity_exceptions` of reconciliation_engine/reconciliation/exceptions.py. The text of a date, `uuid5` in the URL
-- namespace and the clock, by the number of the call, in seconds, are parameters.
pub mod Breaks
use automated_reconciliation.Common.{
  ℕ, suc, ◌+◌, Bool, true, false, Option, none, some, List, [], ◌∷◌, ◌++◌, map, if◌then◌else◌, Text,
  text, filter_of, Result, ok, err, ◌>>=◌,
}
use automated_reconciliation.Common.Float.{Float}
use automated_reconciliation.Reconciliation.Validation.{BarKey}
use automated_reconciliation.Reconciliation.Equities.{ResultRow}
use automated_reconciliation.Reconciliation.Equities.Pairs.{
  BreakReason, price_difference, PairRow, is_break,
}

-- `bool(pd.NA)` raises TypeError.
pub data ExceptionsError : Type 0 where
  ambiguous_na : ExceptionsError

module _ (F : Float) where
  -- The columns that are constant have the values EQUITY, BREAK, HIGH, OPEN and UNASSIGNED.
  pub record EquityException : Type 0 where
    pub exception_id : Text
    pub run_id : Text
    pub key : BarKey
    pub source_a : Text
    pub source_b : Text
    pub close_a : Option F.Num
    pub close_b : Option F.Num
    pub close_difference : Option F.Num
    pub reason_code : BreakReason
    pub created_at : ℕ
    pub due_at : ℕ
    pub resolved_at : Option ℕ

  -- A row of either result: the legacy one has no column `break_reason`, and the outer `none` says so.
  pub record BreakRow : Type 0 where
    pub key : BarKey
    pub source_a : Text
    pub source_b : Text
    pub row : ResultRow F
    pub break_reason : Option (Option BreakReason)

  abbrev pub from_pair : PairRow F → BreakRow
  from_pair p = record {
    key = p.key;
    source_a = p.source_a;
    source_b = p.source_b;
    row = p.row;
    break_reason = some p.break_reason;
  }

  abbrev pub from_legacy : BarKey × ResultRow F → BreakRow
  from_legacy (key, row) = record {
    key = key;
    source_a = text "YAHOO";
    source_b = text "ALPACA";
    row = row;
    break_reason = none;
  }

  -- `getattr(break_row, "break_reason", None) or "PRICE_DIFFERENCE"`
  abbrev pub reason_code_of : Option (Option BreakReason) → Result ExceptionsError BreakReason
  reason_code_of none = ok price_difference
  reason_code_of (some none) = err ambiguous_na
  reason_code_of (some (some reason)) = ok reason

  abbrev pub is_break_row : BreakRow → Bool
  is_break_row r = is_break r.row.status

  module _ (show_date : ℕ → Text) (uuid5 : Text → Text) (clock : ℕ → ℕ) (run_id : Text) where
    -- The logical key of an exception.
    unfoldable pub exception_key : BreakRow → Text
    exception_key r =
        run_id
        ++ text "|EQUITY|"
        ++ r.key.0
        ++ text "|"
        ++ show_date r.key.1
        ++ text "|"
        ++ r.source_a
        ++ text "|"
        ++ r.source_b

    -- The record for one break, at call `i` of the clock.
    unfoldable pub exception_of : ℕ → BreakRow → Result ExceptionsError EquityException
    exception_of i r = reason_code_of r.break_reason >>= λ reason. ok (record {
      exception_id = uuid5 (exception_key r);
      run_id = run_id;
      key = r.key;
      source_a = r.source_a;
      source_b = r.source_b;
      close_a = r.row.close_a;
      close_b = r.row.close_b;
      close_difference = r.row.close_difference;
      reason_code = reason;
      created_at = clock i;
      due_at = clock i + 86400;
      resolved_at = none;
    })

    -- The loop over the breaks, from call `i` of the clock on.
    unfoldable pub exceptions_from :
        ℕ → List BreakRow → Result ExceptionsError (List EquityException)
    exceptions_from i [] = ok []
    exceptions_from i (r ∷ rs) =
        exception_of i r >>= λ e. (exceptions_from (suc i) rs >>= λ es. ok (e ∷ es))

    unfoldable pub create_equity_exceptions :
        List BreakRow → Result ExceptionsError (List EquityException)
    create_equity_exceptions rows = exceptions_from 0 (filter_of is_break_row rows)
