-- ===== src/Batch/Daily/Tests.antt =====
-- The daily command in a concrete world, and the theorems about it at an input.
use automated_reconciliation.Common.{
  ℕ, ◌≡◌, refl, Bool, true, false, Option, none, some, List, [], ◌∷◌, ◌++◌, Text, text, map,
  if◌then◌else◌, decimal, Result, ok, err, nat_eq, list_eq, pair_eq, to_upper, to_lower, strip,
  lstrip, rstrip, normalize, digits,
}
use automated_reconciliation.Common.Int.{pos, ◌-ℤ◌}
use automated_reconciliation.Reconciliation.Tests.{
  units, outer_merge, join_outer, parse_date, yahoo, alpaca,
}
use automated_reconciliation.Reconciliation.Validation.{
  validate_equity_bars, complete, complete_all, key_all, check_bars, has_duplicates,
}
use automated_reconciliation.Reconciliation.Equities.{
  result_row, row_status, is_warned, hybrid_limit, check_tolerances, reconcile_equity_bars,
}
use automated_reconciliation.Reconciliation.Equities.Pairs.{
  reason_of, combinations, reconcile_pair, reconcile_pairs, reconcile_equity_sources,
}
use automated_reconciliation.Reconciliation.Exceptions.{
  exceptions_from, exception_of, exception_key, create_equity_exceptions,
}
use automated_reconciliation.Reconciliation.Tests.{tolerances}
use automated_reconciliation.Scaling.Execution.{written, normalize_equity_dataframe}
use automated_reconciliation.Storage.Tables.{insert_rows}
use automated_reconciliation.Storage.Runs.{
  summary_of, bar_rows, reconciliation_rows, insert_all, persist_equity_run,
}
use automated_reconciliation.Storage.Runs.Atomic.{IsKeyed}
use automated_reconciliation.Storage.DataLake.{
  is_safe_character, archive_path, reconciliation_path, validate_partition_value, write_dataframe,
  write_parquet_once, with_run_id, dataframe_archive_exists, read_dataframe, archive_equity_source,
  archive_reconciliation_results,
}
use automated_reconciliation.Batch.Symbols.{
  is_symbol, add_candidates, add_values, normalize_symbols, build_run_id,
  positive_environment_integer, get_scaling_configuration,
}
use automated_reconciliation.Batch.Notifications.{
  Summary, Post, delivery_failed, send_run_notification,
}
use automated_reconciliation.Batch.World.{
  BatchError, notification_failed, ingestion_failed, Failure, Ending, returned, completed,
  Ingestion, World, Surroundings, Library,
}
use automated_reconciliation.Batch.Attempt.{compare_and_store, compute, attempt}
use automated_reconciliation.Batch.Daily.{main}
use automated_reconciliation.Batch.Daily.Reruns.{IsConfigured, main-again}
use automated_reconciliation.Batch.Daily.Failures.{main-raises, main-unnotified}

-- Each provider has a frame; YAHOO and ALPACA do not agree.
abbrev feeds : Ingestion units ℕ
feeds = record {
  fetch = λ run_id symbols date buckets workers calls. (
    some ((text "YAHOO", yahoo) ∷ (text "ALPACA", alpaca) ∷ (text "MASSIVE", yahoo) ∷ []),
    calls,
  );
}

abbrev broken_feeds : Ingestion units ℕ
broken_feeds = record { fetch = λ run_id symbols date buckets workers calls. (none, calls) }

-- The name itself, with hyphens for what a path cannot have, in place of uuid5.
abbrev named : Text → Text
named s = map (λ c. if is_safe_character c then c else 45) s

abbrev run_name : Text
run_name = text "equity-daily-v5-partitioned-buckets-8-7-SPY"

abbrev library : Library units
library = record {
  restore_date = λ d. d;
  coerce_date = λ d. some d;
  parse_date = parse_date;
  parse_integer = λ s. some (pos 8);
  isoformat = decimal;
  show_date = decimal;
  uuid5 = named;
  single = λ x. x;
  merge = outer_merge;
  defaults = tolerances;
}

abbrev around : Option Bool → Surroundings units
around webhook = record {
  symbols_env = none;
  buckets_env = none;
  workers_env = none;
  initializes = true;
  disk = λ path. written;
  refuses = λ statement. false;
  webhook = webhook;
  started_at = text "8";
  finished_at = text "9";
  clock = λ i. i;
  trace_id = none;
  root_span_id = none;
}

abbrev fresh : World units ℕ
fresh = record {
  lake = record { archives = []; results = [] };
  database = record {
    pipeline_runs = [];
    equity_bars_staging = [];
    equity_reconciliation_results = [];
    equity_exceptions = [];
  };
  ingested = 0;
  posts = [];
}

fresh-IsKeyed : IsKeyed units fresh.database
fresh-IsKeyed = record { runs = tt; bars = tt; results = tt; exceptions = tt }

abbrev given : Option (List Text)
given = some (text "spy" ∷ [])

abbrev again : Option (List Text)
again = some (text " SPY" ∷ [])

abbrev spy : List Text
spy = text "SPY" ∷ []

given-IsConfigured :
    (webhook : Option Bool)
    → IsConfigured units ℕ library (around webhook) given 7 spy (8, 8) run_name
unfolding normalize_symbols add_values add_candidates is_symbol normalize strip lstrip rstrip
    to_upper get_scaling_configuration positive_environment_integer build_run_id digits
given-IsConfigured webhook = (refl, refl, refl)

again-IsConfigured :
    (webhook : Option Bool)
    → IsConfigured units ℕ library (around webhook) again 7 spy (8, 8) run_name
unfolding normalize_symbols add_values add_candidates is_symbol normalize strip lstrip rstrip
    to_upper get_scaling_configuration positive_environment_integer build_run_id digits
again-IsConfigured webhook = (refl, refl, refl)

abbrev failed_call : Result BatchError Summary × World units ℕ
failed_call = main units ℕ broken_feeds library (around (some true)) given 7 fresh

main-raises_example :
    (failed_call.1.database ≡ fresh.database)
    × ((post : Post) × (post.status ≡ text "FAILED")
        × (post.delivered ≡ true)
        × (failed_call.1.posts ≡ fresh.posts ++ post ∷ []))
unfolding main attempt compute normalize_symbols add_values add_candidates is_symbol normalize strip
    lstrip rstrip to_upper to_lower get_scaling_configuration positive_environment_integer
    build_run_id digits dataframe_archive_exists archive_path validate_partition_value
    send_run_notification
main-raises_example =
    main-raises units ℕ library broken_feeds (around (some true)) given 7 spy (8, 8) run_name
      ingestion_failed fresh failed_call.1 fresh-IsKeyed (given-IsConfigured (some true)) refl refl

abbrev stored_call : Result BatchError Summary × World units ℕ
stored_call = main units ℕ feeds library (around none) given 7 fresh

abbrev no_summary : Summary
no_summary = record {
  run_id = [];
  status = [];
  break_count = 0;
  symbols = [];
  control_date = [];
  already_completed = none;
}

abbrev summary_or : Result BatchError Summary → Summary
summary_or (ok s) = s
summary_or (err e) = no_summary

main-again_example :
    main units ℕ broken_feeds library (around (some false)) again 7 stored_call.1
    ≡ (ok (record (summary_or stored_call.0) { already_completed = some true }), stored_call.1)
unfolding main attempt compute compare_and_store normalize_symbols add_values add_candidates
    is_symbol normalize strip lstrip rstrip to_upper to_lower get_scaling_configuration
    positive_environment_integer build_run_id digits dataframe_archive_exists archive_path
    validate_partition_value send_run_notification reconciliation_path write_dataframe
    write_parquet_once with_run_id read_dataframe archive_equity_source
    archive_reconciliation_results normalize_equity_dataframe validate_equity_bars complete
    complete_all key_all check_bars has_duplicates result_row row_status is_warned hybrid_limit
    check_tolerances reconcile_equity_bars reason_of combinations reconcile_pair reconcile_pairs
    reconcile_equity_sources exceptions_from exception_of exception_key create_equity_exceptions
    insert_rows summary_of bar_rows reconciliation_rows insert_all persist_equity_run ◌-ℤ◌
    join_outer
main-again_example =
    main-again units ℕ library feeds broken_feeds (around none) (around (some false)) given again 7
      spy (8, 8) (8, 8) run_name (summary_or stored_call.0) fresh stored_call.1 fresh-IsKeyed
      (given-IsConfigured none) (again-IsConfigured (some false)) refl refl

abbrev ended : Result Failure Ending × World units ℕ
ended = attempt units ℕ feeds library (around (some false)) run_name spy 7 (8, 8) fresh

abbrev summary_at : Result Failure Ending → Summary
summary_at (ok (completed s)) = s
summary_at (ok (returned s)) = no_summary
summary_at (err e) = no_summary

main-unnotified_example :
    (w' : World units ℕ) × (main units ℕ feeds library (around (some false)) given 7 fresh
      ≡ (err (notification_failed delivery_failed), w'))
    × (main units ℕ feeds library (around (some true)) again 7 w'
        ≡ (ok (record (summary_at ended.0) { already_completed = some true }), w'))
unfolding main attempt compute compare_and_store normalize_symbols add_values add_candidates
    is_symbol normalize strip lstrip rstrip to_upper to_lower get_scaling_configuration
    positive_environment_integer build_run_id digits dataframe_archive_exists archive_path
    validate_partition_value send_run_notification reconciliation_path write_dataframe
    write_parquet_once with_run_id read_dataframe archive_equity_source
    archive_reconciliation_results normalize_equity_dataframe validate_equity_bars complete
    complete_all key_all check_bars has_duplicates result_row row_status is_warned hybrid_limit
    check_tolerances reconcile_equity_bars reason_of combinations reconcile_pair reconcile_pairs
    reconcile_equity_sources exceptions_from exception_of exception_key create_equity_exceptions
    insert_rows summary_of bar_rows reconciliation_rows insert_all persist_equity_run ◌-ℤ◌
    join_outer
main-unnotified_example =
    main-unnotified units ℕ library feeds feeds (around (some false)) (around (some true)) given
      again 7 spy (8, 8) (8, 8) run_name (summary_at ended.0) fresh ended.1 fresh-IsKeyed
      (given-IsConfigured (some false)) (again-IsConfigured (some true)) refl refl refl refl
