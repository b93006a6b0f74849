-- ===== src/Reconciliation/Options/Chains.antt =====
-- Which rows `reconcile_option_chain` returns.
use automated_reconciliation.Common.{
  ℕ, ◌≡◌, refl, ap, sym, subst, ◌∙◌, true, not, ◌&&◌, ◌||◌, Option, none, some, List, [], ◌∷◌, Text,
  upper, Dict, lookup, Distinct, map_values, map_option, and_then, is_some, lookup-map_values,
  map_values-Distinct, contains, any_of, Eq, nat_eq, list_eq, pair_eq, Result, ok, err, raise_if,
  >>=-eq-ok, Option-cases, Bool-cases, inl, inr,
}
use automated_reconciliation.Common.Float.{Float, difference}
use automated_reconciliation.Reconciliation.Validation.{has_duplicates}
use automated_reconciliation.Reconciliation.Validation.Consistent.{
  has_duplicates-Distinct, guard-eq-ok,
}
use automated_reconciliation.Reconciliation.Equities.{OuterMerge, joined}
use automated_reconciliation.Reconciliation.Options.{
  OptionError, option_columns, option_columns_missing, invalid_option_date, duplicate_contract,
  null_key, negative_tolerance, ContractKey, RawOption, OptionFrame, OptionRow, Quote,
  combine_first, option_verdict, option_row, quote_of, has_bad_date, contract_of, key_options,
  prepare_options, is_empty_frame, merge_chains, reconcile_option_chain,
}

and_then-eq-some :
    {A B : Type 0} (o : Option A) (f : A → Option B) {b : B}
    → and_then o f ≡ some b
    → (a : A) × (o ≡ some a) × (f a ≡ some b)
and_then-eq-some none f h = cc
and_then-eq-some (some a) f h = (a, refl, h)

module _ (F : Float) where
  -- What a row shows of a contract, by what the two frames have for it.
  pub record Compares (tolerance : F.Num) (a b : Option (Quote F)) (row : OptionRow F)
      : Type 0 where
    pub found : (is_some a || is_some b) ≡ true
    pub contract_symbol :
        row.contract_symbol
        ≡ combine_first (and_then a λ q. q.contract_symbol) (and_then b λ q. q.contract_symbol)
    pub close_a : row.close_a ≡ and_then a (λ q. q.close)
    pub close_b : row.close_b ≡ and_then b (λ q. q.close)
    pub close_difference : row.close_difference ≡ difference F row.close_a row.close_b
    pub bid_a : row.bid_a ≡ and_then a (λ q. q.bid)
    pub ask_a : row.ask_a ≡ and_then a (λ q. q.ask)
    pub bid_b : row.bid_b ≡ and_then b (λ q. q.bid)
    pub ask_b : row.ask_b ≡ and_then b (λ q. q.ask)
    pub status : row.status ≡ (option_verdict F tolerance a b).0
    pub break_reason : row.break_reason ≡ (option_verdict F tolerance a b).1

  -- There is a row exactly if one of the frames has the contract.
  abbrev pub AtContract :
      F.Num → Option (Quote F) → Option (Quote F) → Option (OptionRow F) → Type 0
  AtContract tolerance a b none = (a ≡ none) × (b ≡ none)
  AtContract tolerance a b (some row) = Compares tolerance a b row

  compares :
      (tolerance : F.Num) (a b : Option (Quote F))
      → (is_some a || is_some b) ≡ true
      → Compares tolerance a b (option_row F tolerance (a, b))
  unfolding option_row
  compares tolerance a b found = record {
    found = found;
    contract_symbol = refl;
    close_a = refl;
    close_b = refl;
    close_difference = refl;
    bid_a = refl;
    ask_a = refl;
    bid_b = refl;
    ask_b = refl;
    status = refl;
    break_reason = refl;
  }

  option_row-AtContract :
      (tolerance : F.Num) (a b : Option (Quote F))
      → AtContract tolerance a b (map_option (option_row F tolerance) (joined a b))
  option_row-AtContract tolerance none none = (refl, refl)
  option_row-AtContract tolerance none (some q) = compares tolerance none (some q) refl
  option_row-AtContract tolerance (some p) b = compares tolerance (some p) b refl

module _ (F : Float) {S : Type 0} (parse_date : Text → Option ℕ) where
  -- A row of a frame, and its entry: it has all the cells of its key, which the key has in upper case, or as dates, and the entry has its
  -- other cells.
  pub record IsEntry (r : RawOption F S) (entry : ContractKey F S × Quote F) : Type 0 where
    pub underlying : map_option upper r.underlying ≡ some entry.0.0.0.0
    pub expiry : and_then r.expiry parse_date ≡ some entry.0.0.0.1
    pub strike : r.strike ≡ some entry.0.0.1.0
    pub option_type : map_option upper r.option_type ≡ some entry.0.0.1.1
    pub trade_date : and_then r.trade_date parse_date ≡ some entry.0.1
    pub contract_symbol : entry.1.contract_symbol ≡ r.contract_symbol
    pub close : entry.1.close ≡ r.close
    pub bid : entry.1.bid ≡ r.bid
    pub ask : entry.1.ask ≡ r.ask

  -- The entries of the rows, in their order.
  abbrev pub AreEntries : List (RawOption F S) → Dict (ContractKey F S) (Quote F) → Type 0
  AreEntries [] [] = Unit
  AreEntries [] (entry ∷ entries) = ⊥
  AreEntries (r ∷ rows) [] = ⊥
  AreEntries (r ∷ rows) (entry ∷ entries) = IsEntry r entry × AreEntries rows entries

  contract_of-IsEntry :
      (r : RawOption F S) (k : ContractKey F S)
      → contract_of F parse_date r ≡ some k
      → IsEntry r (k, quote_of F r)
  unfolding contract_of
  contract_of-IsEntry r k h =
      let (underlying, u, h₁) = and_then-eq-some r.underlying _ h in
      let (expiry, x, h₂) = and_then-eq-some (and_then r.expiry parse_date) _ h₁ in
      let (strike, s, h₃) = and_then-eq-some r.strike _ h₂ in
      let (option_type, t, h₄) = and_then-eq-some r.option_type _ h₃ in
      let (trade_date, d, last) = and_then-eq-some (and_then r.trade_date parse_date) _ h₄ in
      let same : (((upper underlying, expiry), (strike, upper option_type)), trade_date) ≡ k = cc in
      rw (← same) (record {
        underlying = rw u refl;
        expiry = x;
        strike = s;
        option_type = rw t refl;
        trade_date = d;
        contract_symbol = refl;
        close = refl;
        bid = refl;
        ask = refl;
      })

  key_options-AreEntries :
      (rows : List (RawOption F S)) (keyed : Dict (ContractKey F S) (Quote F))
      → key_options F parse_date rows ≡ ok keyed
      → AreEntries rows keyed
  unfolding key_options
  key_options-AreEntries [] [] h = tt
  key_options-AreEntries [] (entry ∷ entries) h = cc
  key_options-AreEntries (r ∷ rows) keyed h = elim (Option-cases (contract_of F parse_date r)) [
    | inl null ↦ absurd (no_error (rw (null, key_options) at h))
    | inr (k, e) ↦
        let (rest, tail, last) =
          >>=-eq-ok (key_options F parse_date rows) _ (rw (e, key_options) at h) in
        let same : (k, quote_of F r) ∷ rest ≡ keyed = cc in
        rw (← same) (contract_of-IsEntry r k e, key_options-AreEntries rows rest tail)
  ]
    where
      no_error :
          ◌≡◌ {A = Result OptionError (Dict (ContractKey F S) (Quote F))} (err null_key) (ok keyed)
          → ⊥
      no_error e = cc

  module _ ⦃e : Eq S⦄ where
    -- What `_prepare_options` makes of a frame.
    abbrev pub IsPrepared : OptionFrame F S → Dict (ContractKey F S) (Quote F) → Type 0
    IsPrepared frame keyed = Distinct keyed × AreEntries frame.rows keyed

    prepare_options-IsPrepared :
        (frame : OptionFrame F S) (keyed : Dict (ContractKey F S) (Quote F))
        → prepare_options F parse_date frame ≡ ok keyed
        → IsPrepared frame keyed
    unfolding prepare_options
    prepare_options-IsPrepared frame keyed h =
        let (_, _, h₁) =
          >>=-eq-ok
            (raise_if (any_of (λ c. not (contains c frame.columns)) option_columns)
              option_columns_missing)
            _ h in
        let (_, _, h₂) =
          >>=-eq-ok (raise_if (any_of (has_bad_date F parse_date) frame.rows) invalid_option_date) _
            h₁ in
        let (keyed', made, h₃) = >>=-eq-ok (key_options F parse_date frame.rows) _ h₂ in
        let (_, g, last) = >>=-eq-ok (raise_if (has_duplicates keyed') duplicate_contract) _ h₃ in
        let same : keyed' ≡ keyed = cc in
        rw (← same) (
          has_duplicates-Distinct keyed' (guard-eq-ok (has_duplicates keyed') duplicate_contract g),
          key_options-AreEntries frame.rows keyed' made,
        )

    module _ (M : OuterMerge (ContractKey F S) (Quote F)) (tolerance : F.Num) where
      -- The two frames with their entries, and exactly one row for every contract and date of one of them.
      abbrev pub IsComparison :
          OptionFrame F S → OptionFrame F S → Dict (ContractKey F S) (OptionRow F) → Type 0
      IsComparison yahoo alpaca rows =
          (left : Dict (ContractKey F S) (Quote F)) × (right : Dict (ContractKey F S) (Quote F))
          × IsPrepared yahoo left
          × IsPrepared alpaca right
          × Distinct rows
          × ((k : ContractKey F S)
              → AtContract F tolerance (lookup k left) (lookup k right) (lookup k rows))

      lookup-merge_chains :
          (yahoo alpaca : OptionFrame F S) (rows : Dict (ContractKey F S) (OptionRow F))
          → merge_chains F parse_date M tolerance yahoo alpaca ≡ ok rows
          → IsComparison yahoo alpaca rows
      unfolding merge_chains
      lookup-merge_chains yahoo alpaca rows h =
          let (left, l, h₁) = >>=-eq-ok (prepare_options F parse_date yahoo) _ h in
          let (right, r, last) = >>=-eq-ok (prepare_options F parse_date alpaca) _ h₁ in
          let pl = prepare_options-IsPrepared yahoo left l in
          let pr = prepare_options-IsPrepared alpaca right r in
          let same : map_values (option_row F tolerance) (M.merge left right) ≡ rows = cc in
          (
            left,
            right,
            pl,
            pr,
            rw (← same) (
                map_values-Distinct (option_row F tolerance) (M.merge left right)
                  (M.merge-Distinct left right pl.0 pr.0)),
            λ k.
                subst (AtContract F tolerance (lookup k left) (lookup k right))
                  (sym (
                    ap (lookup k) (sym same)
                    ∙ lookup-map_values (option_row F tolerance) k (M.merge left right)
                    ∙ ap (map_option (option_row F tolerance))
                        (M.lookup-merge left right pl.0 pr.0 k)))
                  (option_row-AtContract F tolerance (lookup k left) (lookup k right)),
          )

      both_empty :
          (yahoo alpaca : List (RawOption F S))
          → (is_empty_frame F parse_date yahoo && is_empty_frame F parse_date alpaca) ≡ true
          → AreEntries yahoo [] × AreEntries alpaca []
      both_empty [] [] h = (tt, tt)
      both_empty [] (r ∷ rows) h = cc
      both_empty (r ∷ rows) alpaca h = cc

      -- When the comparison of two option chains returns, each frame has its rows for entries, all with their keys and no contract and
      -- date twice; and the rows of the result are exactly one for every contract and date that either frame has, with the closes, bids
      -- and asks that each frame has there, and with the difference and the verdict on them.
      pub lookup-reconcile_option_chain :
          (yahoo alpaca : OptionFrame F S) (rows : Dict (ContractKey F S) (OptionRow F))
          → reconcile_option_chain F parse_date M tolerance yahoo alpaca ≡ ok rows
          → IsComparison yahoo alpaca rows
      unfolding reconcile_option_chain
      lookup-reconcile_option_chain yahoo alpaca rows h =
          elim (Bool-cases (F.lt tolerance F.zero)) [
            | inl negative ↦ absurd (no_error (rw negative at h))
            | inr allowed ↦
                elim (Bool-cases (
                  is_empty_frame F parse_date yahoo.rows
                  && is_empty_frame F parse_date alpaca.rows)) [
                    | inl empty ↦
                        let (l, r) = both_empty yahoo.rows alpaca.rows empty in
                        let none_left = no_rows (rw (allowed, empty) at h) in
                        ([], [], (tt, l), (tt, r), rw none_left tt, λ k. rw none_left (refl, refl))
                    | inr some_rows ↦
                        lookup-merge_chains yahoo alpaca rows (rw (allowed, some_rows) at h)
                  ]
          ]
        where
          no_error :
              ◌≡◌ {A = Result OptionError (Dict (ContractKey F S) (OptionRow F))}
                (err negative_tolerance)
                (ok rows)
              → ⊥
          no_error e = cc

          no_rows :
              ◌≡◌ {A = Result OptionError (Dict (ContractKey F S) (OptionRow F))} (ok []) (ok rows)
              → rows ≡ []
          no_rows e = cc
