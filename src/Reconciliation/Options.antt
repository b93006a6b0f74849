-- ===== src/Reconciliation/Options.antt =====
-- `_prepare_options`, `reconcile_option_chain` and `reconcile_option_sources` of reconciliation_engine/reconciliation/options.py. The
-- numbers of the column `strike`, with their equality, the reading of dates and the outer merge are parameters.
pub mod Blame
pub mod Chains
mod Tests
use automated_reconciliation.Common.{
  ℕ, Bool, true, false, ◌&&◌, ◌||◌, not, Option, none, some, List, [], ◌∷◌, ◌++◌, map,
  if◌then◌else◌, Text, text, upper, length, ltb, Dict, map_values, map_option, and_then, contains,
  any_of, is_some, Eq, ◌==◌, nat_eq, list_eq, pair_eq, Result, ok, err, ◌>>=◌, ◌>>◌, raise_if,
}
use automated_reconciliation.Common.Float.{Float, difference}
use automated_reconciliation.Reconciliation.Validation.{has_duplicates}
use automated_reconciliation.Reconciliation.Equities.{
  OuterMerge, Status, matched, break, exceeds, is_na,
}
use automated_reconciliation.Reconciliation.Equities.Pairs.{combinations}

abbrev pub option_columns : List Text
option_columns =
    text "underlying"
    ∷ text "expiry"
    ∷ text "strike"
    ∷ text "option_type"
    ∷ text "trade_date"
    ∷ text "contract_symbol"
    ∷ text "close"
    ∷ text "bid"
    ∷ text "ask"
    ∷ []

-- The ValueErrors of the three functions; a date that is no date is one too.
pub data OptionError : Type 0 where
  negative_tolerance option_columns_missing invalid_option_date null_key duplicate_contract :
      OptionError
  too_few_option_providers : OptionError

-- MISSING_<provider>_CONTRACT
abbrev pub missing_label : Text → Text
missing_label provider = text "MISSING_" ++ provider ++ text "_CONTRACT"

-- `pair.loc[pair["break_reason"] == old, "break_reason"] = new`, for one row
abbrev pub relabel : Text → Text → Option Text → Option Text
relabel old new none = none
relabel old new (some reason) = some (if reason == old then new else reason)

-- The two assignments of `reconcile_option_sources`, in their order.
unfoldable pub pair_reason : Text → Text → Option Text → Option Text
pair_reason source_a source_b reason =
    relabel (missing_label (text "YAHOO")) (missing_label (upper source_a))
      (relabel (missing_label (text "ALPACA")) (missing_label (upper source_b)) reason)

abbrev pub combine_first : Option Text → Option Text → Option Text
combine_first none b = b
combine_first (some a) b = some a

-- A date that is there and that `pd.to_datetime` refuses.
abbrev pub is_bad_date : (Text → Option ℕ) → Option Text → Bool
is_bad_date parse_date none = false
is_bad_date parse_date (some date) = not (is_some (parse_date date))

module _ (F : Float) where
  pub record Quote : Type 0 where
    pub contract_symbol : Option Text
    pub close : Option F.Num
    pub bid : Option F.Num
    pub ask : Option F.Num

  -- A row of the result, under its contract.
  pub record OptionRow : Type 0 where
    pub contract_symbol : Option Text
    pub close_a : Option F.Num
    pub close_b : Option F.Num
    pub close_difference : Option F.Num
    pub bid_a : Option F.Num
    pub ask_a : Option F.Num
    pub bid_b : Option F.Num
    pub ask_b : Option F.Num
    pub status : Status
    pub break_reason : Option Text

  -- Status and reason of a contract that both sides have.
  unfoldable pub compare_closes : F.Num → Option F.Num → Option F.Num → Status × Option Text
  compare_closes tolerance a b =
      if is_na F a || is_na F b
      then (break, some (text "MISSING_COMPARISON_PRICE"))
      else if exceeds F (difference F a b) tolerance
      then (break, some (text "PRICE_DIFFERENCE"))
      else (matched, none)

  -- Status and reason of a contract, by what each side has; the merge has no contract that neither side has.
  unfoldable pub option_verdict : F.Num → Option (Quote) → Option (Quote) → Status × Option Text
  option_verdict tolerance none none = (matched, none)
  option_verdict tolerance none (some q) = (break, some (missing_label (text "YAHOO")))
  option_verdict tolerance (some p) none = (break, some (missing_label (text "ALPACA")))
  option_verdict tolerance (some p) (some q) = compare_closes tolerance p.close q.close

  -- The row of a contract.
  unfoldable pub option_row : F.Num → Option (Quote) × Option (Quote) → OptionRow
  option_row tolerance (a, b) =
      let close_a = and_then a λ q. q.close in
      let close_b = and_then b λ q. q.close in
      let verdict = option_verdict tolerance a b in
      record {
        contract_symbol =
            combine_first (and_then a λ q. q.contract_symbol) (and_then b λ q. q.contract_symbol);
        close_a = close_a;
        close_b = close_b;
        close_difference = difference F close_a close_b;
        bid_a = and_then a λ q. q.bid;
        ask_a = and_then a λ q. q.ask;
        bid_b = and_then b λ q. q.bid;
        ask_b = and_then b λ q. q.ask;
        status = verdict.0;
        break_reason = verdict.1;
      }

module _ (F : Float) (S : Type 0) where
  -- Underlying and expiry, strike and option type, and the trade date.
  abbrev pub ContractKey : Type 0
  ContractKey = ((Text × ℕ) × (S × Text)) × ℕ

  pub record RawOption : Type 0 where
    pub underlying : Option Text
    pub expiry : Option Text
    pub strike : Option S
    pub option_type : Option Text
    pub trade_date : Option Text
    pub contract_symbol : Option Text
    pub close : Option F.Num
    pub bid : Option F.Num
    pub ask : Option F.Num

  pub record OptionFrame : Type 0 where
    pub columns : List Text
    pub rows : List RawOption

module _ (F : Float) {S : Type 0} where
  abbrev pub quote_of : RawOption F S → Quote F
  quote_of r = record {
    contract_symbol = r.contract_symbol;
    close = r.close;
    bid = r.bid;
    ask = r.ask;
  }

  module _ (parse_date : Text → Option ℕ) where
    abbrev pub has_bad_date : RawOption F S → Bool
    has_bad_date r = is_bad_date parse_date r.expiry || is_bad_date parse_date r.trade_date

    unfoldable pub contract_of : RawOption F S → Option (ContractKey F S)
    contract_of r = and_then r.underlying λ underlying.
        and_then (and_then r.expiry parse_date) λ expiry. and_then r.strike λ strike.
          and_then r.option_type λ option_type.
            and_then (and_then r.trade_date parse_date) λ trade_date.
              some (((upper underlying, expiry), (strike, upper option_type)), trade_date)

    unfoldable pub key_options :
        List (RawOption F S) → Result OptionError (Dict (ContractKey F S) (Quote F))
    key_options [] = ok []
    key_options (r ∷ rs) = elim (contract_of r) [
      | none ↦ err null_key
      | some k ↦ key_options rs >>= λ rest. ok ((k, quote_of r) ∷ rest)
    ]

    module _ ⦃e : Eq S⦄ where
      -- `_prepare_options`
      unfoldable pub prepare_options :
          OptionFrame F S → Result OptionError (Dict (ContractKey F S) (Quote F))
      prepare_options frame = do
        raise_if (any_of (λ c. not (contains c frame.columns)) option_columns)
            option_columns_missing
        raise_if (any_of has_bad_date frame.rows) invalid_option_date
        keyed ← key_options frame.rows
        raise_if (has_duplicates keyed) duplicate_contract
        ok keyed

      abbrev pub is_empty_frame : List (RawOption F S) → Bool
      is_empty_frame [] = true
      is_empty_frame (r ∷ rs) = false

      module _ (M : OuterMerge (ContractKey F S) (Quote F)) (tolerance : F.Num) where
        abbrev pub OptionRows : Type 0
        OptionRows = Dict (ContractKey F S) (OptionRow F)

        -- The part of `reconcile_option_chain` behind the test for two empty frames.
        unfoldable pub merge_chains :
            OptionFrame F S → OptionFrame F S → Result OptionError OptionRows
        merge_chains yahoo alpaca = prepare_options yahoo >>= λ left.
            (prepare_options alpaca >>= λ right.
            ok (map_values (option_row F tolerance) (M.merge left right)))

        -- `reconcile_option_chain`
        unfoldable pub reconcile_option_chain :
            OptionFrame F S → OptionFrame F S → Result OptionError OptionRows
        reconcile_option_chain yahoo alpaca =
            if F.lt tolerance F.zero
            then err negative_tolerance
            else if is_empty_frame yahoo.rows && is_empty_frame alpaca.rows
            then ok []
            else merge_chains yahoo alpaca

        -- A row of the pairwise result: its two sources, its contract and the row.
        abbrev pub PairOption : Type 0
        PairOption = (Text × Text) × (ContractKey F S × OptionRow F)

        abbrev pub pair_option : Text → Text → ContractKey F S × OptionRow F → PairOption
        pair_option source_a source_b (key, row) = (
          (upper source_a, upper source_b),
          (key, record row { break_reason = pair_reason source_a source_b row.break_reason }),
        )

        unfoldable pub reconcile_option_pairs :
            List ((Text × OptionFrame F S) × (Text × OptionFrame F S))
            → Result OptionError (List PairOption)
        reconcile_option_pairs [] = ok []
        reconcile_option_pairs (((source_a, a), (source_b, b)) ∷ pairs) =
            reconcile_option_chain a b >>= λ rows.
            (reconcile_option_pairs pairs >>= λ rest.
            ok (map (pair_option source_a source_b) rows ++ rest))

        -- `reconcile_option_sources`
        unfoldable pub reconcile_option_sources :
            List (Text × OptionFrame F S) → Result OptionError (List PairOption)
        reconcile_option_sources providers = do
          raise_if (ltb (length providers) 2) too_few_option_providers
          reconcile_option_pairs (combinations providers)
