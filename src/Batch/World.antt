-- ===== src/Batch/World.antt =====
-- What `main` of reconciliation_engine/batch.py changes, and what a call of it finds: the archives, the database, the state of the
-- ingestion, which is an interface here, and the messages to the webhook.
use automated_reconciliation.Common.{
  ℕ, Bool, Option, List, [], ◌∷◌, Text, text, nat_eq, list_eq, pair_eq,
}
use automated_reconciliation.Common.Int.{ℤ}
use automated_reconciliation.Common.Float.{Float}
use automated_reconciliation.Reconciliation.Validation.{BarKey, Bar, Frame}
use automated_reconciliation.Reconciliation.Equities.{OuterMerge, Tolerances, ReconcileError}
use automated_reconciliation.Reconciliation.Exceptions.{ExceptionsError}
use automated_reconciliation.Scaling.Execution.{WriteOutcome}
use automated_reconciliation.Storage.Runs.{Statement, StorageError, Database}
use automated_reconciliation.Storage.DataLake.{FilePath, LakeError, Lake}
use automated_reconciliation.Batch.Symbols.{ConfigurationError}
use automated_reconciliation.Batch.Notifications.{Summary, Post, NotificationError}

-- What `main` raises.
pub data BatchError : Type 0 where
  misconfigured : ConfigurationError → BatchError
  no_database ingestion_failed missing_provider lost_race : BatchError
  storage_failed : StorageError → BatchError
  archive_failed : LakeError → BatchError
  comparison_failed : ReconcileError → BatchError
  exceptions_failed : ExceptionsError → BatchError
  notification_failed : NotificationError → BatchError

-- An exception of the body of `try`, with the value of `break_count` when it is raised.
abbrev pub Failure : Type 0
Failure = BatchError × ℕ

-- How the body of `try` ends without an exception: it returns from `main`, or `main` goes on behind it.
pub data Ending : Type 0 where
  returned completed : Summary → Ending

abbrev pub sources : List Text
sources = text "YAHOO" ∷ text "ALPACA" ∷ text "MASSIVE" ∷ []

module _ (F : Float) where
  -- `fetch_partitioned_equity_sources`, of a run with its symbols, its date, and the numbers of buckets and workers: a frame of each
  -- provider, or an exception.
  pub record Ingestion (S : Type 0) : Type 0 where
    pub fetch : Text → List Text → ℕ → ℕ → ℕ → S → Option (List (Text × Frame F)) × S

  -- What the daily command changes. The database has the four tables that `persist_equity_run` writes; those that the ingestion writes
  -- to the same file (work_partitions, provider_request_metrics and quarantine_records) belong to the state of the ingestion.
  pub record World (S : Type 0) : Type 0 where
    pub lake : Lake F
    pub database : Database F
    pub ingested : S
    pub posts : List Post

  -- What one call finds around it.
  pub record Surroundings : Type 0 where
    pub symbols_env : Option Text
    pub buckets_env : Option Text
    pub workers_env : Option Text
    pub initializes : Bool
    pub disk : FilePath → WriteOutcome
    pub refuses : Statement → Bool
    pub webhook : Option Bool
    pub started_at : Text
    pub finished_at : Text
    pub clock : ℕ → ℕ
    pub trace_id : Option Text
    pub root_span_id : Option Text

  -- The parts of other libraries.
  pub record Library : Type 0 where
    pub restore_date : Option Text → Option Text
    pub coerce_date : Text → Option Text
    pub parse_date : Text → Option ℕ
    pub parse_integer : Text → Option ℤ
    pub isoformat : ℕ → Text
    pub show_date : ℕ → Text
    pub uuid5 : Text → Text
    pub single : F.Num → F.Num
    pub merge : OuterMerge BarKey (Bar F)
    pub defaults : Tolerances F
