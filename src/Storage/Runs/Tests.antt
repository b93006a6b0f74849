-- ===== src/Storage/Runs/Tests.antt =====
-- `persist_equity_run` on a concrete run, and the theorems about it at an input.
use automated_reconciliation.Common.{
  ℕ, ◌≡◌, refl, Bool, true, false, none, some, List, [], ◌∷◌, map, Text, text, length, ok, nat_eq,
  list_eq, pair_eq, strip, normalize,
}
use automated_reconciliation.Common.Int.{ℤ, pos, ◌-ℤ◌}
use automated_reconciliation.Reconciliation.Tests.{
  units, outer_merge, join_outer, parse_date, tolerances, providers, pairwise, value_or,
}
use automated_reconciliation.Reconciliation.Validation.{
  Bar, validate_equity_bars, complete, complete_all, key_all, check_bars, has_duplicates,
}
use automated_reconciliation.Reconciliation.Equities.{
  result_row, row_status, is_warned, hybrid_limit, check_tolerances, reconcile_equity_bars,
}
use automated_reconciliation.Reconciliation.Equities.Pairs.{
  reason_of, combinations, reconcile_pair, reconcile_pairs, reconcile_equity_sources,
}
use automated_reconciliation.Reconciliation.Exceptions.{
  EquityException, from_pair, exceptions_from, exception_of, exception_key,
  create_equity_exceptions,
}
use automated_reconciliation.Storage.Tables.{insert_rows}
use automated_reconciliation.Storage.Runs.{
  Statement, insert_exceptions, Database, EquityRun, summary_of, bar_rows, reconciliation_rows,
  get_pipeline_run, insert_all, persist_equity_run,
}
use automated_reconciliation.Storage.Runs.Atomic.{
  IsKeyed, with_run, Effect, persist_equity_run-Effect,
}
use automated_reconciliation.Storage.Runs.Retries.{
  persist_equity_run-again, persist_equity_run-stores,
}
use automated_reconciliation.Storage.Runs.Counts.{summary_of-break_count}

abbrev single : ℤ → ℤ
single x = x

abbrev willing : Statement → Bool
willing s = false

abbrev unwilling : Statement → Bool
unwilling insert_exceptions = true
unwilling _ = false

abbrev nothing : Database units
nothing = record {
  pipeline_runs = [];
  equity_bars_staging = [];
  equity_reconciliation_results = [];
  equity_exceptions = [];
}

abbrev some_bar : Bar units
some_bar = record {
  symbol = text "SPY";
  trade_date = text "1";
  open_ = pos 90;
  high = pos 200;
  low = pos 80;
  close = pos 100;
  volume = pos 1000;
}

abbrev show_date : ℕ → Text
show_date date = date ∷ []

abbrev same_text : Text → Text
same_text t = t

abbrev clock : ℕ → ℕ
clock i = i

abbrev opened : List (EquityException units)
opened = value_or [] (
    create_equity_exceptions units show_date same_text clock (text "run")
      (map (from_pair units) pairwise))

abbrev run : EquityRun units
run = record {
  run_id = text "run";
  started_at = text "8";
  finished_at = text "9";
  status = text "BREAK";
  yahoo_bars = ((text "SPY", 49), some_bar) ∷ [];
  alpaca_bars = ((text "QQQ", 49), some_bar) ∷ [];
  massive_bars = none;
  reconciliation = map (from_pair units) pairwise;
  exceptions = opened;
  trace_id = none;
  root_span_id = none;
}

nothing-IsKeyed : IsKeyed units nothing
nothing-IsKeyed = record { runs = tt; bars = tt; results = tt; exceptions = tt }

persist_equity_run-Effect_example :
    Effect units single unwilling run nothing
      (persist_equity_run units single unwilling run nothing)
persist_equity_run-Effect_example =
    persist_equity_run-Effect units single unwilling run nothing nothing-IsKeyed

summary_of-break_count_example : (summary_of units run).break_count ≡ length opened
unfolding create_equity_exceptions exceptions_from exception_of exception_key
    reconcile_equity_sources reconcile_pairs reconcile_pair combinations reconcile_equity_bars
    validate_equity_bars complete complete_all key_all check_bars has_duplicates check_tolerances
    strip normalize join_outer result_row row_status is_warned hybrid_limit ◌-ℤ◌ reason_of
summary_of-break_count_example =
    summary_of-break_count units show_date same_text clock parse_date outer_merge tolerances
      providers pairwise run refl refl refl

-- A run with a bar of each provider, and no row yet.
abbrev small : EquityRun units
small = record run { reconciliation = []; exceptions = [] }

small-IsKeyed : IsKeyed units (with_run units single willing small nothing)
unfolding bar_rows reconciliation_rows
small-IsKeyed = record {
  runs = (refl, tt);
  bars = (refl, (refl, tt));
  results = tt;
  exceptions = tt;
}

persist_equity_run-stores_example :
    persist_equity_run units single willing small nothing
    ≡ (ok true, with_run units single willing small nothing)
persist_equity_run-stores_example =
    persist_equity_run-stores units single willing (λ s. refl) small nothing small-IsKeyed tt

persist_equity_run-again_example :
    (persist_equity_run units single willing run (with_run units single willing small nothing)
      ≡ (ok false, with_run units single willing small nothing))
    × (get_pipeline_run units (text "run") (with_run units single willing small nothing)
        ≡ some (summary_of units small))
unfolding persist_equity_run insert_all bar_rows reconciliation_rows insert_rows
persist_equity_run-again_example =
    persist_equity_run-again units single willing willing small run nothing
      (with_run units single willing small nothing) nothing-IsKeyed refl refl refl refl
