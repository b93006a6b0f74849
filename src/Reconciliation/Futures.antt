-- ===== src/Reconciliation/Futures.antt =====
-- `_validate_prices` and `reconcile_futures_bars` of reconciliation_engine/reconciliation/futures.py, over rows that have a symbol
-- and a date. The reading of dates and the outer merge are parameters.
pub mod Sessions
mod Tests
use automated_reconciliation.Common.{
  ℕ, Bool, true, false, ◌&&◌, ◌||◌, not, Option, none, some, List, [], ◌∷◌, if◌then◌else◌, Text,
  text, upper, Dict, lookup, insert, contains, map_values, and_then, any_of, nat_eq, list_eq,
  pair_eq, Result, ok, err, ◌>>=◌, ◌>>◌, raise_if,
}
use automated_reconciliation.Common.Float.{Float, difference, reference}
use automated_reconciliation.Reconciliation.Validation.{has_duplicates}
use automated_reconciliation.Reconciliation.Equities.{
  OuterMerge, Status, matched, break, exceeds, is_na, hybrid_limit,
}

-- The ValueErrors of `reconcile_futures_bars`, with that of a date that is no date.
pub data FuturesError : Type 0 where
  no_contract_map negative_futures_tolerance futures_columns_missing invalid_price : FuturesError
  invalid_session duplicate_session : FuturesError

-- Contract and session date.
abbrev pub SessionKey : Type 0
SessionKey = Text × ℕ

pub data FuturesReason : Type 0 where
  missing_yahoo missing_massive futures_price_difference : FuturesReason

-- `{key.upper(): value.upper() for key, value in contract_map.items()}`, from some dictionary on
unfoldable pub upper_map : Dict Text Text → Dict Text Text → Dict Text Text
upper_map [] d = d
upper_map ((key, value) ∷ items) d = upper_map items (insert (upper key) (upper value) d)

-- The `reverse_map`.
unfoldable pub upper_reverse : Dict Text Text → Dict Text Text → Dict Text Text
upper_reverse [] d = d
upper_reverse ((key, value) ∷ items) d = upper_reverse items (insert (upper value) (upper key) d)

abbrev pub is_empty_map : Dict Text Text → Bool
is_empty_map [] = true
is_empty_map (item ∷ items) = false

module _ (F : Float) where
  -- A raw row; Yahoo's frame has no settlement price.
  pub record RawSession : Type 0 where
    pub symbol : Text
    pub date : Text
    pub close : Option F.Num
    pub settlement_price : Option F.Num

  pub record FuturesFrame : Type 0 where
    pub columns : List Text
    pub rows : List RawSession

  -- What one side has for a contract and a session.
  pub record Session : Type 0 where
    pub symbol : Text
    pub close : Option F.Num
    pub settlement_price : Option F.Num

  pub record FuturesRow : Type 0 where
    pub yahoo_symbol : Option Text
    pub yahoo_close : Option F.Num
    pub massive_close : Option F.Num
    pub massive_settlement_price : Option F.Num
    pub close_difference : Option F.Num
    pub status : Status
    pub break_reason : Option FuturesReason

  abbrev pub is_bad_price : Option F.Num → Bool
  is_bad_price none = false
  is_bad_price (some p) = not (F.is_finite p) || F.lt p F.zero

  -- `_validate_prices`
  unfoldable pub validate_prices : List Text → FuturesFrame → Result FuturesError (Unit {0})
  validate_prices required frame = do
    raise_if (any_of (λ c. not (contains c frame.columns)) required) futures_columns_missing
    raise_if (any_of (λ r. is_bad_price r.close) frame.rows) invalid_price

  -- The masks in the order in which they are written.
  unfoldable pub futures_verdict :
      F.Num → F.Num → Option F.Num → Option F.Num → Status × Option FuturesReason
  futures_verdict close_tolerance pct a b =
      let limit = hybrid_limit F close_tolerance (some pct) (reference F a b) in
      if not (is_na F a) && not (is_na F b) && exceeds F (difference F a b) limit
      then (break, some futures_price_difference)
      else if is_na F b
      then (break, some missing_massive)
      else if is_na F a
      then (break, some missing_yahoo)
      else (matched, none)

  abbrev pub symbol_or : Option Session → Option Text → Option Text
  symbol_or none symbol = symbol
  symbol_or (some s) symbol = some s.symbol

  unfoldable pub futures_row :
      F.Num → F.Num → Dict Text Text → SessionKey → Option Session × Option Session → FuturesRow
  futures_row close_tolerance pct reverse key (yahoo, massive) =
      let a = and_then yahoo λ s. s.close in
      let b = and_then massive λ s. s.close in
      let verdict = futures_verdict close_tolerance pct a b in
      record {
        yahoo_symbol = symbol_or yahoo (lookup key.0 reverse);
        yahoo_close = a;
        massive_close = b;
        massive_settlement_price = and_then massive λ s. s.settlement_price;
        close_difference = difference F a b;
        status = verdict.0;
        break_reason = verdict.1;
      }

  -- The rows of the merge, each under its key.
  unfoldable pub futures_rows :
      F.Num
      → F.Num
      → Dict Text Text
      → Dict SessionKey (Option Session × Option Session)
      → Dict SessionKey FuturesRow
  futures_rows close_tolerance pct reverse [] = []
  futures_rows close_tolerance pct reverse ((key, sides) ∷ joint) =
      (key, futures_row close_tolerance pct reverse key sides)
      ∷ futures_rows close_tolerance pct reverse joint

  abbrev pub session_of : RawSession → Session
  session_of r = record {
    symbol = upper r.symbol;
    close = r.close;
    settlement_price = r.settlement_price;
  }

  module _ (parse_date : Text → Option ℕ) where
    -- The sessions of a frame by contract; a symbol without a contract is left out, once its date is read.
    unfoldable pub key_sessions :
        (Text → Option Text) → List RawSession → Result FuturesError (Dict SessionKey Session)
    key_sessions contract_of [] = ok []
    key_sessions contract_of (r ∷ rs) =
        let rest = key_sessions contract_of rs in
        elim (parse_date r.date) [
          | none ↦ err invalid_session
          | some date ↦ elim (contract_of (upper r.symbol)) [
            | none ↦ rest
            | some contract ↦ rest >>= λ keyed. ok (((contract, date), session_of r) ∷ keyed)
          ]
        ]

    abbrev pub same_symbol : Text → Option Text
    same_symbol symbol = some symbol

    -- `reconcile_futures_bars`
    unfoldable pub reconcile_futures_bars :
        OuterMerge SessionKey Session
        → F.Num
        → F.Num
        → Dict Text Text
        → FuturesFrame
        → FuturesFrame
        → Result FuturesError (Dict SessionKey FuturesRow)
    reconcile_futures_bars M close_tolerance pct contract_map yahoo_bars massive_bars = do
      raise_if (is_empty_map contract_map) no_contract_map
      raise_if (F.lt close_tolerance F.zero || F.lt pct F.zero) negative_futures_tolerance
      validate_prices (text "symbol" ∷ text "trade_date" ∷ text "close" ∷ []) yahoo_bars
      validate_prices
          (text "symbol" ∷ text "session_date" ∷ text "close" ∷ text "settlement_price" ∷ [])
          massive_bars
      yahoo ← key_sessions (λ symbol. lookup symbol (upper_map contract_map [])) yahoo_bars.rows
      massive ← key_sessions same_symbol massive_bars.rows
      raise_if (has_duplicates yahoo) duplicate_session
      raise_if (has_duplicates massive) duplicate_session
      ok (futures_rows close_tolerance pct (upper_reverse contract_map []) (M.merge yahoo massive))
