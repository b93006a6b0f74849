-- ===== src/Storage/Runs/Counts.antt =====
-- The counts that the summary of a run stores, against the exceptions that the run opens.
use automated_reconciliation.Common.{
  ℕ, ◌≡◌, refl, sym, ap, ◌∙◌, List, [], ◌∷◌, map, Option, Text, length, count_of, length-filter_of,
  filter_of, ok, arith, nat_eq, list_eq, pair_eq,
}
use automated_reconciliation.Common.Float.{Float}
use automated_reconciliation.Reconciliation.Validation.{BarKey, Bar, Frame}
use automated_reconciliation.Reconciliation.Equities.{OuterMerge, Tolerances}
use automated_reconciliation.Reconciliation.Equities.Pairs.{
  PairRow, is_break, reconcile_equity_sources,
}
use automated_reconciliation.Reconciliation.Equities.Pairs.Reasons.{length-map}
use automated_reconciliation.Reconciliation.Exceptions.{
  BreakRow, from_pair, create_equity_exceptions,
}
use automated_reconciliation.Reconciliation.Exceptions.Breaks.{
  of_exception, of_row, is_break_pair, create_equity_exceptions-breaks,
}
use automated_reconciliation.Storage.Runs.{EquityRun, summary_of}

module _ (F : Float) where
  count-from_pair :
      (rows : List (PairRow F))
      → count_of (λ (b : BreakRow F). is_break b.row.status) (map (from_pair F) rows)
        ≡ count_of (is_break_pair F) rows
  count-from_pair [] = refl
  count-from_pair (p ∷ rows) = ground (arith, count-from_pair rows)

  -- If a run is stored with the rows of a pairwise reconciliation and the exceptions that were made from them, then the
  -- `break_count` of its summary is the number of those exceptions.
  pub summary_of-break_count :
      (show_date : ℕ → Text) (uuid5 : Text → Text) (clock : ℕ → ℕ) (parse_date : Text → Option ℕ)
      (M : OuterMerge BarKey (Bar F)) (t : Tolerances F) (providers : List (Text × Frame F))
      (rows : List (PairRow F)) (r : EquityRun F)
      → reconcile_equity_sources F parse_date M t providers ≡ ok rows
      → r.reconciliation ≡ map (from_pair F) rows
      → create_equity_exceptions F show_date uuid5 clock r.run_id r.reconciliation ≡ ok r.exceptions
      → (summary_of F r).break_count ≡ length r.exceptions
  unfolding summary_of
  summary_of-break_count show_date uuid5 clock parse_date M t providers rows r h e k =
      let (es, run, same, _) =
        create_equity_exceptions-breaks F show_date uuid5 clock r.run_id parse_date M t providers
          rows h in
      let equal : r.exceptions ≡ es = cc in
      rw (e, equal, count-from_pair rows)
        (sym (length-filter_of (is_break_pair F) rows)
          ∙ sym (length-map (of_row F) (filter_of (is_break_pair F) rows))
          ∙ ap length (sym same)
          ∙ length-map (of_exception F) es)
