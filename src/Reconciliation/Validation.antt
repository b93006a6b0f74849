-- ===== src/Reconciliation/Validation.antt =====
-- `validate_equity_bars` of reconciliation_engine/reconciliation/equities.py. A raw frame is the names of its columns,
-- which of them have a numeric dtype, and its rows, with `none` for a null. What pandas reads as the date of a
-- text, and the float arithmetic, are parameters.
pub mod Consistent
pub mod Dates
use automated_reconciliation.Common.{
  ℕ, Bool, true, false, ◌&&◌, ◌||◌, not, Option, none, some, List, [], ◌∷◌, map, if◌then◌else◌,
  Text, text, is_empty, strip, normalize, Dict, lookup, contains, Eq, nat_eq, list_eq, pair_eq,
  Result, ok, err, ◌>>=◌, ◌>>◌, raise_if, any_of, is_some, and_then,
}
use automated_reconciliation.Common.Float.{Float, maximum, minimum}

-- Symbol and trade date, normalized.
abbrev pub BarKey : Type 0
BarKey = Text × ℕ

-- The ValueErrors of `validate_equity_bars`, in the order of its checks.
pub data ValidationError : Type 0 where
  missing_columns null_values empty_symbol invalid_date not_numeric not_finite : ValidationError
  negative_price negative_volume inconsistent_ohlc duplicate_keys : ValidationError

abbrev pub required_columns : List Text
required_columns =
    text "symbol"
    ∷ text "trade_date"
    ∷ text "open"
    ∷ text "high"
    ∷ text "low"
    ∷ text "close"
    ∷ text "volume"
    ∷ []

abbrev pub is_missing : List Text → Text → Bool
is_missing columns column = not (contains column columns)

-- `business_keys.duplicated().any()`
unfoldable pub has_duplicates {ℓ κ} : {K : Type ℓ} {V : Type κ} ⦃e : Eq K⦄ → Dict K V → Bool
has_duplicates [] = false
has_duplicates ((k, v) ∷ d) = is_some (lookup k d) || has_duplicates d

module _ (F : Float) where
  pub record RawBar : Type 0 where
    pub symbol : Option Text
    pub trade_date : Option Text
    pub open_ : Option F.Num
    pub high : Option F.Num
    pub low : Option F.Num
    pub close : Option F.Num
    pub volume : Option F.Num

  pub record Frame : Type 0 where
    pub columns : List Text
    pub is_numeric : Text → Bool
    pub rows : List RawBar

  pub record Bar : Type 0 where
    pub symbol : Text
    pub trade_date : Text
    pub open_ : F.Num
    pub high : F.Num
    pub low : F.Num
    pub close : F.Num
    pub volume : F.Num

  -- A row with no null in it.
  unfoldable pub complete : RawBar → Option Bar
  complete r = and_then r.symbol λ symbol. and_then r.trade_date λ trade_date. and_then r.open_ λ o.
      and_then r.high λ h. and_then r.low λ l. and_then r.close λ c. and_then r.volume λ v.
        some (record {
          symbol = symbol;
          trade_date = trade_date;
          open_ = o;
          high = h;
          low = l;
          close = c;
          volume = v;
        })

  -- The rows, or that one of them has a null.
  unfoldable pub complete_all : List RawBar → Result ValidationError (List Bar)
  complete_all [] = ok []
  complete_all (r ∷ rs) = elim (complete r) [
    | none ↦ err null_values
    | some b ↦ complete_all rs >>= λ bs. ok (b ∷ bs)
  ]

  -- The tests of one numeric column: its dtype, then its values.
  abbrev pub check_column : Bool → List F.Num → Result ValidationError (Unit {0})
  check_column numeric values = do
    raise_if (not numeric) not_numeric
    raise_if (any_of (λ v. not (F.is_finite v)) values) not_finite

  abbrev pub is_negative : F.Num → Bool
  is_negative v = F.lt v F.zero

  abbrev pub has_negative_price : Bar → Bool
  has_negative_price b =
      is_negative b.open_ || is_negative b.high || is_negative b.low || is_negative b.close

  abbrev pub violates_ohlc : Bar → Bool
  violates_ohlc b =
      F.lt b.high (maximum F (maximum F b.open_ b.close) b.low)
      || F.lt (minimum F (minimum F b.open_ b.close) b.high) b.low

  -- The tests of the numeric columns, of the values and of the business keys, in their order.
  unfoldable pub check_bars :
      (Text → Bool) → List Bar → Dict BarKey Bar → Result ValidationError (Unit {0})
  check_bars is_numeric bars keyed = do
    check_column (is_numeric (text "open")) (map (λ b. b.open_) bars)
    check_column (is_numeric (text "high")) (map (λ b. b.high) bars)
    check_column (is_numeric (text "low")) (map (λ b. b.low) bars)
    check_column (is_numeric (text "close")) (map (λ b. b.close) bars)
    check_column (is_numeric (text "volume")) (map (λ b. b.volume) bars)
    raise_if (any_of has_negative_price bars) negative_price
    raise_if (any_of (λ b. is_negative b.volume) bars) negative_volume
    raise_if (any_of violates_ohlc bars) inconsistent_ohlc
    raise_if (has_duplicates keyed) duplicate_keys

  module _ (parse_date : Text → Option ℕ) where
    -- `parsed_dates`, with the rows under their business keys
    unfoldable pub key_all : List Bar → Result ValidationError (Dict BarKey Bar)
    key_all [] = ok []
    key_all (b ∷ bs) = elim (parse_date b.trade_date) [
      | none ↦ err invalid_date
      | some date ↦ key_all bs >>= λ rest. ok (((normalize b.symbol, date), b) ∷ rest)
    ]

    -- `validate_equity_bars`, with the rows that a valid frame has, under their business keys
    unfoldable pub validate_equity_bars : Frame → Result ValidationError (Dict BarKey Bar)
    validate_equity_bars frame = do
      raise_if (any_of (is_missing frame.columns) required_columns) missing_columns
      bars ← complete_all frame.rows
      raise_if (any_of (λ b. is_empty (strip b.symbol)) bars) empty_symbol
      keyed ← key_all bars
      check_bars frame.is_numeric bars keyed
      ok keyed
