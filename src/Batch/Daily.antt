-- ===== src/Batch/Daily.antt =====
-- `main` of reconciliation_engine/batch.py: the configuration, the body of `try`, and the notification.
pub mod Reruns
pub mod Failures
mod Tests
use automated_reconciliation.Common.{
  ℕ, ◌+◌, Bool, true, false, not, ◌&&◌, ◌||◌, Option, none, some, List, [], ◌∷◌, ◌++◌, map, ◌==◌,
  if◌then◌else◌, Text, text, count_of, Dict, lookup, nat_eq, list_eq, pair_eq, Eq, Result, ok, err,
  ◌>>=◌, ◌>>◌, raise_if, Action, continue, bind, lift, map_err,
}
use automated_reconciliation.Common.Int.{ℤ}
use automated_reconciliation.Common.Float.{Float}
use automated_reconciliation.Reconciliation.Validation.{
  BarKey, Bar, Frame, ValidationError, validate_equity_bars,
}
use automated_reconciliation.Reconciliation.Equities.{OuterMerge, Tolerances, ReconcileError}
use automated_reconciliation.Reconciliation.Equities.Pairs.{
  PairRow, is_break, reconcile_equity_sources,
}
use automated_reconciliation.Reconciliation.Exceptions.{
  ExceptionsError, EquityException, from_pair, create_equity_exceptions,
}
use automated_reconciliation.Scaling.Execution.{WriteOutcome}
use automated_reconciliation.Storage.Runs.{
  Statement, StorageError, Database, PipelineRun, EquityRun, get_pipeline_run, persist_equity_run,
}
use automated_reconciliation.Storage.DataLake.{
  FilePath, LakeError, Table, Lake, read_dataframe, drop_run_id, dataframe_archive_exists,
  archive_equity_source, archive_reconciliation_results,
}
use automated_reconciliation.Batch.Symbols.{
  ConfigurationError, get_reconciliation_symbols, get_scaling_configuration, build_run_id,
}
use automated_reconciliation.Batch.Notifications.{
  Summary, Post, NotificationError, send_run_notification,
}
use automated_reconciliation.Batch.World.{
  Ending, returned, completed, BatchError, misconfigured, no_database, ingestion_failed,
  missing_provider, lost_race, storage_failed, archive_failed, comparison_failed, exceptions_failed,
  notification_failed, Failure, sources, Ingestion, World, Surroundings, Library,
}
use automated_reconciliation.Batch.Attempt.{attempt}

module _ (F : Float) (S : Type 0) (I : Ingestion F S) (L : Library F) (a : Surroundings F) where
  abbrev pub failed_summary : Text → List Text → ℕ → ℕ → Summary
  failed_summary run_id symbols date count = record {
    run_id = run_id;
    status = text "FAILED";
    break_count = count;
    symbols = symbols;
    control_date = L.isoformat date;
    already_completed = none;
  }

  abbrev pub with_posts {ℓ} :
      {A : Type ℓ}
      → World F S
      → (Unit {0} → Result BatchError A)
      → Result NotificationError (Unit {0}) × List Post
      → Result BatchError A × World F S
  with_posts w next (ok _, posts) = (next tt, record w { posts = posts })
  with_posts w next (err e, posts) = (err (notification_failed e), record w { posts = posts })

  -- The `except` clause, or what follows the statement.
  abbrev pub after_attempt :
      Text
      → List Text
      → ℕ
      → Result Failure Ending × World F S
      → Result BatchError Summary × World F S
  after_attempt run_id symbols date (ok (returned summary), w) = (ok summary, w)
  after_attempt run_id symbols date (ok (completed summary), w) =
      with_posts w (λ _. ok summary) (send_run_notification a.webhook summary w.posts)
  after_attempt run_id symbols date (err (e, count), w) =
      with_posts w (λ _. err e)
        (send_run_notification a.webhook (failed_summary run_id symbols date count) w.posts)

  abbrev pub run_with :
      List Text
      → ℕ
      → Result ConfigurationError ((ℕ × ℕ) × Text)
      → World F S
      → Result BatchError Summary × World F S
  run_with symbols date (err e) w = (err (misconfigured e), w)
  run_with symbols date (ok (scaling, run_id)) w =
      after_attempt run_id symbols date (attempt F S I L a run_id symbols date scaling w)

  abbrev pub configured : List Text → ℕ → Result ConfigurationError ((ℕ × ℕ) × Text)
  configured symbols date = do
    scaling ← get_scaling_configuration L.parse_integer a.buckets_env a.workers_env
    run_id ← build_run_id L.uuid5 L.isoformat symbols date scaling.0
    ok (scaling, run_id)

  abbrev pub with_symbols :
      ℕ → Result ConfigurationError (List Text) → World F S → Result BatchError Summary × World F S
  with_symbols date (err e) w = (err (misconfigured e), w)
  with_symbols date (ok symbols) w = run_with symbols date (configured symbols date) w

  -- `main`, of the symbols that are given, if any, and a control date
  unfoldable pub main : Option (List Text) → ℕ → Action BatchError (World F S) Summary
  main symbols date w = with_symbols date (get_reconciliation_symbols symbols a.symbols_env) w
