-- ===== src/Reconciliation/Exceptions/Breaks.antt =====
-- The exceptions of a pairwise result are its breaks.
use automated_reconciliation.Common.{
  ℕ, suc, ◌+◌, ◌≡◌, refl, Bool, true, Option, none, some, List, [], ◌∷◌, map, Text, filter_of, ok,
  All, is_some, arith, Bool-cases, Option-cases, inl, inr, nat_eq, list_eq, pair_eq,
}
use automated_reconciliation.Common.Float.{Float}
use automated_reconciliation.Reconciliation.Validation.{BarKey, Bar, Frame}
use automated_reconciliation.Reconciliation.Equities.{OuterMerge, Tolerances}
use automated_reconciliation.Reconciliation.Equities.Pairs.{
  BreakReason, PairRow, is_break, reconcile_equity_sources,
}
use automated_reconciliation.Reconciliation.Equities.Pairs.Reasons.{
  IsExplained, reconcile_equity_sources-IsExplained,
}
use automated_reconciliation.Reconciliation.Exceptions.{
  EquityException, from_pair, is_break_row, exception_key, exception_of, exceptions_from,
  create_equity_exceptions,
}

module _ (F : Float) where
  -- What an exception and the row that it was made from have in common.
  abbrev pub Identity : Type 0
  Identity = BarKey × Text × Text × Option BreakReason

  abbrev pub of_exception : EquityException F → Identity
  of_exception e = (e.key, e.source_a, e.source_b, some e.reason_code)

  abbrev pub of_row : PairRow F → Identity
  of_row p = (p.key, p.source_a, p.source_b, p.break_reason)

  abbrev pub is_break_pair : PairRow F → Bool
  is_break_pair p = is_break p.row.status

  -- Open, unresolved, and due a day after it was created.
  abbrev pub IsOpen : EquityException F → Type 0
  IsOpen e = (e.due_at ≡ e.created_at + 86400) × (e.resolved_at ≡ none)

  unexplained :
      (p : PairRow F)
      → is_some p.break_reason ≡ is_break p.row.status
      → is_break p.row.status ≡ true
      → p.break_reason ≡ none
      → ⊥
  unexplained p h broken unknown_ = ground arith

  module _ (show_date : ℕ → Text) (uuid5 : Text → Text) (clock : ℕ → ℕ) (run_id : Text) where
    -- The exception for a break with a reason.
    abbrev exception : ℕ → PairRow F → BreakReason → EquityException F
    exception i p reason = record {
      exception_id = uuid5 (exception_key F show_date uuid5 clock run_id (from_pair F p));
      run_id = run_id;
      key = p.key;
      source_a = p.source_a;
      source_b = p.source_b;
      close_a = p.row.close_a;
      close_b = p.row.close_b;
      close_difference = p.row.close_difference;
      reason_code = reason;
      created_at = clock i;
      due_at = clock i + 86400;
      resolved_at = none;
    }

    exceptions_from-breaks :
        (i : ℕ) (rows : List (PairRow F))
        → All (IsExplained F) rows
        → (es : List (EquityException F)) × (exceptions_from F show_date uuid5 clock run_id i
              (filter_of (is_break_row F) (map (from_pair F) rows))
            ≡ ok es)
          × (map of_exception es ≡ map of_row (filter_of is_break_pair rows))
          × All IsOpen es
    unfolding exceptions_from exception_of
    exceptions_from-breaks i [] h = ([], refl, refl, tt)
    exceptions_from-breaks i (p ∷ rows) h = elim (Bool-cases (is_break p.row.status)) [
      | inl broken ↦ elim (Option-cases p.break_reason) [
        | inl unknown_ ↦ absurd (unexplained p h.0.0 broken unknown_)
        | inr (reason, e) ↦
            let (es, run, same, open_) = exceptions_from-breaks (suc i) rows h.1 in
            (
              exception i p reason ∷ es,
              rw (broken, exceptions_from, e, run) refl,
              rw (broken, e, same) refl,
              ((refl, refl), open_),
            )
      ]
      | inr fine ↦
          let (es, run, same, open_) = exceptions_from-breaks i rows h.1 in
          (es, rw (fine, exceptions_from) run, rw (fine) same, open_)
    ]

    -- From the rows that a pairwise reconciliation returned, `create_equity_exceptions` does not raise: it
    -- returns one exception for each row with status BREAK and for no other, in their order, with the row's key,
    -- its providers and its break reason, and each is unresolved and due a day after it was created.
    pub create_equity_exceptions-breaks :
        (parse_date : Text → Option ℕ) (M : OuterMerge BarKey (Bar F)) (t : Tolerances F)
        (providers : List (Text × Frame F)) (rows : List (PairRow F))
        → reconcile_equity_sources F parse_date M t providers ≡ ok rows
        → (es : List (EquityException F)) × (create_equity_exceptions F show_date uuid5 clock run_id
              (map (from_pair F) rows)
            ≡ ok es)
          × (map of_exception es ≡ map of_row (filter_of is_break_pair rows))
          × All IsOpen es
    unfolding create_equity_exceptions
    create_equity_exceptions-breaks parse_date M t providers rows h =
        exceptions_from-breaks 0 rows
          (reconcile_equity_sources-IsExplained F parse_date M t providers rows h)
