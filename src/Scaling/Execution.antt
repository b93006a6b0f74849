-- ===== src/Scaling/Execution.antt =====
-- `_execute_partition_inner` of reconciliation_engine/scaling/equity_ingestion.py, with `write_partition_once` and
-- `read_partition` of storage/partitioned_data_lake.py for the two files of one partition, and
-- `normalize_equity_dataframe` of storage/data_lake.py. What the adapter, the parsing of dates and the writes to the disk do are
-- parameters, and so is what a date is when it is read from a file, since a column of dates comes back as one of timestamps. A file that
-- is there is whole, and can be read: a write that is cut off in the middle is not an outcome.
pub mod Checkpoints
mod Tests
use automated_reconciliation.Common.{
  ℕ, suc, Bool, true, false, Option, none, some, List, [], ◌∷◌, ◌++◌, map, if◌then◌else◌, Text,
  text, normalize, any_of, is_some, and_then, map_option, Dict, nat_eq, list_eq, pair_eq, Result,
  ok, err, ◌>>=◌, ◌>>◌, raise_if,
}
use automated_reconciliation.Common.Float.{Float}
use automated_reconciliation.Reconciliation.Validation.{
  BarKey, Bar, RawBar, Frame, ValidationError, required_columns, is_missing, validate_equity_bars,
}

-- What a write to the disk does: nothing, or it leaves the file there and may still raise (the permissions are set last).
pub data WriteOutcome : Type 0 where
  written not_written left_behind : WriteOutcome

-- The exceptions that a partition's attempt ends with.
pub data ExecutionError : Type 0 where
  fetch_failed archive_exists write_failed columns_missing : ExecutionError
  invalid_frame : ValidationError → ExecutionError

abbrev pub frame_checked {ℓ} : {A : Type ℓ} → Result ValidationError A → Result ExecutionError A
frame_checked (ok a) = ok a
frame_checked (err e) = err (invalid_frame e)

module _ (F : Float) where
  -- The two files of a partition, and how often its adapter was asked for data.
  pub record Archive : Type 0 where
    pub raw : Option (Frame F)
    pub normalized : Option (Frame F)
    pub fetches : ℕ

  -- What the surroundings do in one attempt; a fetch is a frame, or an exception.
  pub record Attempt : Type 0 where
    pub fetched : Option (Frame F)
    pub write_raw : WriteOutcome
    pub write_normalized : WriteOutcome

  -- `PartitionOutcome`; of the path of the raw archive, whether it is given.
  pub record PartitionOutcome : Type 0 where
    pub frame : Option (Frame F)
    pub reused_archive : Bool
    pub error : Option ExecutionError
    pub has_raw_path : Bool

  -- The columns that `write_partition_once` adds.
  abbrev pub archived : Frame F → Frame F
  archived f = record f {
    columns =
        f.columns
        ++ text "run_id" ∷ text "partition_id" ∷ text "provider" ∷ text "symbol_bucket" ∷ [];
  }

  -- `write_partition_once`, by what stands at the path
  abbrev pub write_partition_once :
      WriteOutcome
      → Option (Frame F)
      → Frame F
      → Result ExecutionError (Unit {0}) × Option (Frame F)
  write_partition_once w (some old) f = (err archive_exists, some old)
  write_partition_once written none f = (ok tt, some (archived f))
  write_partition_once not_written none f = (err write_failed, none)
  write_partition_once left_behind none f = (err write_failed, some (archived f))

  -- `read_partition`, of a file that is there
  abbrev pub read_partition : (Text → Text) → Frame F → Frame F
  read_partition read_date f = record f {
    rows =
        map (λ (r : RawBar F). record r { trade_date = map_option read_date r.trade_date }) f.rows;
  }

  -- `_canonical_from_archive`
  abbrev pub canonical_from_archive : Frame F → Frame F
  canonical_from_archive f = record f { columns = required_columns }

  module _ (coerce_date : Text → Option Text) (parse_date : Text → Option ℕ) where
    abbrev pub normalize_row : RawBar F → RawBar F
    normalize_row r = record r {
      symbol = map_option normalize r.symbol;
      trade_date = and_then r.trade_date coerce_date;
    }

    -- `normalize_equity_dataframe`; a numeric cell of a raw frame is what `pd.to_numeric` makes of it.
    unfoldable pub normalize_equity_dataframe : Frame F → Result ExecutionError (Frame F)
    normalize_equity_dataframe f = do
      raise_if (any_of (is_missing f.columns) required_columns) columns_missing
      ok (record {
        columns = required_columns;
        is_numeric = λ _. true;
        rows = map normalize_row f.rows;
      })

    -- `raw = adapter.fetch(...)` and the writing of it
    abbrev pub store_raw :
        WriteOutcome → Option (Frame F) → Archive → Result ExecutionError (Frame F × Bool) × Archive
    store_raw w none s = (err fetch_failed, s)
    store_raw w (some f) s =
        let wrote = write_partition_once w s.raw f in
        (wrote.0 >> ok (f, false), record s { raw = wrote.1 })

    -- The canonical frame of a raw one, if it is valid.
    unfoldable pub canonical_of : Frame F → Result ExecutionError (Frame F)
    canonical_of raw = do
      canonical ← normalize_equity_dataframe raw
      bars ← frame_checked (validate_equity_bars F parse_date canonical)
      ok canonical

    -- The `except` clause.
    abbrev pub failure : ExecutionError → Archive → PartitionOutcome × Archive
    failure e s = (
      record {
        frame = none;
        reused_archive = is_some s.raw;
        error = some e;
        has_raw_path = is_some s.raw;
      },
      s,
    )

    abbrev pub after_write :
        Frame F
        → Bool
        → Archive
        → Result ExecutionError (Unit {0}) × Option (Frame F)
        → PartitionOutcome × Archive
    after_write canonical reused s (err e, file) = failure e (record s { normalized = file })
    after_write canonical reused s (ok _, file) = (
      record { frame = some canonical; reused_archive = reused; error = none; has_raw_path = true },
      record s { normalized = file },
    )

    abbrev pub after_canonical :
        WriteOutcome → Bool → Archive → Result ExecutionError (Frame F) → PartitionOutcome × Archive
    after_canonical w reused s (err e) = failure e s
    after_canonical w reused s (ok canonical) =
        after_write canonical reused s (write_partition_once w s.normalized canonical)

    abbrev pub after_raw :
        WriteOutcome → Result ExecutionError (Frame F × Bool) × Archive → PartitionOutcome × Archive
    after_raw w (err e, s) = failure e s
    after_raw w (ok (raw, reused), s) = after_canonical w reused s (canonical_of raw)

    module _ (read_date : Text → Text) where
      -- The raw frame, and whether it was there already.
      abbrev pub obtain_raw :
          Attempt → Option (Frame F) → Archive → Result ExecutionError (Frame F × Bool) × Archive
      obtain_raw a (some f) s = (ok (read_partition read_date f, true), s)
      obtain_raw a none s = store_raw a.write_raw a.fetched (record s { fetches = suc s.fetches })

      -- `_execute_partition_inner`, by what stands at the path of the normalized archive
      abbrev pub execute_from : Attempt → Option (Frame F) → Archive → PartitionOutcome × Archive
      execute_from a (some f) s = (
        record {
          frame = some (canonical_from_archive (read_partition read_date f));
          reused_archive = true;
          error = none;
          has_raw_path = false;
        },
        s,
      )
      execute_from a none s = after_raw a.write_normalized (obtain_raw a s.raw s)

      -- `_execute_partition_inner`
      unfoldable pub execute_partition : Attempt → Archive → PartitionOutcome × Archive
      execute_partition a s = execute_from a s.normalized s
