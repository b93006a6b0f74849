-- ===== src/Storage/Manifest.antt =====
-- The manifest of work partitions in reconciliation_engine/storage/duckdb.py: `register_work_partitions`,
-- `mark_partition_running` and `finish_work_partition`. Times are numbers of a clock.
pub mod Settled
pub mod Rounds
mod Tests
use automated_reconciliation.Common.{
  ℕ, suc, ◌+◌, Bool, true, false, ◌&&◌, ◌||◌, not, Option, none, some, List, [], ◌∷◌, ◌++◌,
  if◌then◌else◌, Text, text, take, Dict, lookup, is_some, any_of, Eq, ◌==◌, nat_eq, list_eq, Result,
  ok, err, ◌>>=◌,
}
use automated_reconciliation.Storage.Tables.{update}

-- The values of the column `status`.
pub data PartitionStatus : Type 0 where
  pending running success failed_ : PartitionStatus

-- What INSERT writes of a `WorkPartition` under its partition_id.
pub record WorkPartition : Type 0 where
  pub run_id : Text
  pub control_date : ℕ
  pub instrument_type : Text
  pub symbol_bucket : ℕ
  pub provider : Text
  pub symbols_json : Text

-- A row of work_partitions, under its partition_id.
pub record WorkRow : Type 0 where
  pub work : WorkPartition
  pub status : PartitionStatus
  pub attempts : ℕ
  pub started_at : Option ℕ
  pub finished_at : Option ℕ
  pub row_count : Option ℕ
  pub error_type : Option Text
  pub error_message : Option Text

-- The UNIQUE constraint, and the ValueError of `finish_work_partition`.
pub data ManifestError : Type 0 where
  not_unique bad_status : ManifestError

abbrev pub Manifest : Type 0
Manifest = Dict Text WorkRow

-- UNIQUE (run_id, provider, instrument_type, symbol_bucket)
abbrev pub is_same_work : WorkPartition → Text × WorkRow → Bool
is_same_work w (_, r) =
    w.run_id == r.work.run_id
    && w.provider == r.work.provider
    && w.instrument_type == r.work.instrument_type
    && w.symbol_bucket == r.work.symbol_bucket

abbrev pub pending_row : WorkPartition → WorkRow
pending_row w = record {
  work = w;
  status = pending;
  attempts = 0;
  started_at = none;
  finished_at = none;
  row_count = none;
  error_type = none;
  error_message = none;
}

-- `register_work_partitions`, with ON CONFLICT (partition_id) DO NOTHING; the rows before one that raises stay.
unfoldable pub register_work_partitions :
    Dict Text WorkPartition → Manifest → Result ManifestError (Unit {0}) × Manifest
register_work_partitions [] m = (ok tt, m)
register_work_partitions ((id, w) ∷ ws) m = elim (is_some (lookup id m)) [
  | true ↦ register_work_partitions ws m
  | false ↦ elim (any_of (is_same_work w) m) [
    | true ↦ (err not_unique, m)
    | false ↦ register_work_partitions ws (m ++ (id, pending_row w) ∷ [])
  ]
]

abbrev pub is_success : PartitionStatus → Bool
is_success pending = false
is_success running = false
is_success success = true
is_success failed_ = false

abbrev pub started : ℕ → WorkRow → WorkRow
started now r = if is_success r.status then r else record r {
  status = running;
  attempts = suc r.attempts;
  started_at = some now;
  finished_at = none;
  error_type = none;
  error_message = none;
}

-- `mark_partition_running`
unfoldable pub mark_partition_running : ℕ → Text → Manifest → Manifest
mark_partition_running now id m = update id (started now) m

abbrev pub parse_status : Text → Option PartitionStatus
parse_status status =
    if status == text "SUCCESS"
    then some success
    else if status == text "FAILED"
    then some failed_
    else none

-- The type and the text of an exception.
abbrev pub Raised : Type 0
Raised = Text × Text

abbrev pub type_of : Option Raised → Option Text
type_of none = none
type_of (some (name, message)) = some name

abbrev pub message_of : Option Raised → Option Text
message_of none = none
message_of (some (name, message)) = some (take 1000 message)

abbrev pub finished : ℕ → PartitionStatus → ℕ → Option Raised → WorkRow → WorkRow
finished now status row_count error r = record r {
  status = status;
  finished_at = some now;
  row_count = some row_count;
  error_type = type_of error;
  error_message = message_of error;
}

-- `finish_work_partition`
unfoldable pub finish_work_partition :
    ℕ → Text → Text → ℕ → Option Raised → Manifest → Result ManifestError Manifest
finish_work_partition now id status row_count error m = elim (parse_status status) [
  | none ↦ err bad_status
  | some s ↦ ok (update id (finished now s row_count error) m)
]

-- What `ingest_equity_partitions` has of one partition: a frame of so many rows, or an exception.
pub data Outcome : Type 0 where
  fetched : ℕ → Outcome
  broken : Raised → Outcome

abbrev pub finish_outcome : ℕ → Text → Outcome → Manifest → Result ManifestError Manifest
finish_outcome now id (fetched rows) m = finish_work_partition now id (text "SUCCESS") rows none m
finish_outcome now id (broken error) m =
    finish_work_partition now id (text "FAILED") 0 (some error) m

-- The loop of `ingest_equity_partitions` over the outcomes, in the order in which the futures completed.
unfoldable pub finish_all : ℕ → Dict Text Outcome → Manifest → Result ManifestError Manifest
finish_all now [] m = ok m
finish_all now ((id, o) ∷ outcomes) m = finish_outcome now id o m >>= finish_all now outcomes

-- The loop of `ingest_equity_partitions` that claims the partitions.
unfoldable pub mark_all : ℕ → List Text → Manifest → Manifest
mark_all now [] m = m
mark_all now (id ∷ ids) m = mark_all now ids (mark_partition_running now id m)
