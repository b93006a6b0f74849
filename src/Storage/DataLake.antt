-- ===== src/Storage/DataLake.antt =====
-- reconciliation_engine/storage/data_lake.py: the archives of a run, as files by the parts of their paths under the data
-- root. A file is written once; what the disk does with a write is a parameter, and so is what reading a normalized archive makes of a
-- date.
pub mod WriteOnce
pub mod Kept
pub mod Again
mod Tests
use automated_reconciliation.Common.{
  ℕ, Bool, true, false, not, ◌&&◌, ◌||◌, leb, Option, none, some, List, [], ◌∷◌, ◌++◌, map,
  if◌then◌else◌, Text, text, upper, lower, is_empty, contains, any_of, is_some, map_option,
  and_then, Dict, lookup, ◌==◌, nat_eq, list_eq, Result, ok, err, raise_if, ◌>>=◌, ◌>>◌, Action,
  bind, lift, map_err,
}
use automated_reconciliation.Common.Float.{Float}
use automated_reconciliation.Reconciliation.Validation.{RawBar, Frame, required_columns}
use automated_reconciliation.Reconciliation.Equities.Pairs.{PairRow}
use automated_reconciliation.Scaling.Execution.{
  WriteOutcome, written, not_written, left_behind, ExecutionError, normalize_equity_dataframe,
}

-- The parts of a path under the data root.
abbrev pub FilePath : Type 0
FilePath = List Text

-- The exceptions; `columns_missing` is the one of `normalize_equity_dataframe`.
pub data LakeError : Type 0 where
  bad_layer bad_source bad_partition_value run_id_mismatch archive_exists write_failed : LakeError
  columns_missing : LakeError

abbrev pub is_safe_character : ℕ → Bool
is_safe_character c =
    (leb 65 c && leb c 90)
    || (leb 97 c && leb c 122)
    || (leb 48 c && leb c 57)
    || contains c (text "._-")

-- `_validate_partition_value`
unfoldable pub validate_partition_value : Text → Result LakeError (Unit {0})
validate_partition_value value =
    raise_if (is_empty value || any_of (λ c. not (is_safe_character c)) value) bad_partition_value

abbrev pub file_name : Text → Text
file_name layer = if layer == text "raw" then text "payload.parquet" else text "data.parquet"

-- `_archive_path`
unfoldable pub archive_path : Text → Text → Text → Text → Result LakeError FilePath
archive_path layer source instrument_type run_id = do
  raise_if (not (contains (lower layer) (text "raw" ∷ text "normalized" ∷ []))) bad_layer
  raise_if (not (contains (upper source) (text "YAHOO" ∷ text "ALPACA" ∷ text "MASSIVE" ∷ [])))
      bad_source
  validate_partition_value (lower instrument_type)
  validate_partition_value run_id
  ok (
      lower layer
      ∷ upper source
      ∷ lower instrument_type
      ∷ (text "run_id=" ++ run_id)
      ∷ file_name (lower layer)
      ∷ [])

-- `_reconciliation_path`
unfoldable pub reconciliation_path : Text → Result LakeError FilePath
reconciliation_path run_id = do
  validate_partition_value run_id
  ok (
      text "reconciliation"
      ∷ text "equities"
      ∷ (text "run_id=" ++ run_id)
      ∷ text "results.parquet"
      ∷ [])

-- `_write_parquet_once`, by what stands at the path; the permissions are set after the file is there.
abbrev pub write_once {ℓ} :
    {V : Type ℓ}
    → WriteOutcome
    → FilePath
    → V
    → Option V
    → Dict FilePath V
    → Result LakeError (Unit {0}) × Dict FilePath V
write_once w path v (some old) files = (err archive_exists, files)
write_once written path v none files = (ok tt, files ++ (path, v) ∷ [])
write_once not_written path v none files = (err write_failed, files)
write_once left_behind path v none files = (err write_failed, files ++ (path, v) ∷ [])

-- `_write_parquet_once`
unfoldable pub write_parquet_once {ℓ} :
    {V : Type ℓ}
    → (FilePath → WriteOutcome)
    → V
    → FilePath
    → Action LakeError (Dict FilePath V) (Unit {0})
write_parquet_once disk v path files = write_once (disk path) path v (lookup path files) files

module _ (F : Float) where
  -- A frame, and the cells of its column run_id if it has one.
  pub record Table : Type 0 where
    pub frame : Frame F
    pub run_ids : Option (List (Option Text))

  -- The archives of the providers and of the results.
  pub record Lake : Type 0 where
    pub archives : Dict FilePath Table
    pub results : Dict FilePath (List (PairRow F) × Text)

  abbrev pub is_other : Text → Option Text → Bool
  is_other run_id none = false
  is_other run_id (some id) = not (id == run_id)

  abbrev pub has_other : Text → Option (List (Option Text)) → Bool
  has_other run_id none = false
  has_other run_id (some ids) = any_of (is_other run_id) ids

  -- `_with_run_id`: the ids that are there, as a set, are at most the one
  unfoldable pub with_run_id : Table → Text → Result LakeError Table
  with_run_id t run_id = do
    raise_if (has_other run_id t.run_ids) run_id_mismatch
    ok (record t { run_ids = some (map (λ _. some run_id) t.frame.rows) })

  -- `.drop(columns="run_id", errors="ignore")`
  abbrev pub drop_run_id : Table → Table
  drop_run_id t = record t { run_ids = none }

  abbrev pub empty_table : List Text → Table
  empty_table columns = record {
    frame = record { columns = columns; is_numeric = λ _. false; rows = [] };
    run_ids = some [];
  }

  abbrev pub with_archives :
      Lake → Result LakeError (Unit {0}) × Dict FilePath Table → Result LakeError (Unit {0}) × Lake
  with_archives lake (outcome, files) = (outcome, record lake { archives = files })

  abbrev pub with_results :
      Lake
      → Result LakeError (Unit {0}) × Dict FilePath (List (PairRow F) × Text)
      → Result LakeError (Unit {0}) × Lake
  with_results lake (outcome, files) = (outcome, record lake { results = files })

  -- `dataframe_archive_exists`
  unfoldable pub dataframe_archive_exists : Text → Text → Text → Action LakeError Lake Bool
  dataframe_archive_exists source run_id layer =
      bind (lift (archive_path layer source (text "equities") run_id))
        λ path. λ lake. (ok (is_some (lookup path lake.archives)), lake)

  module _ (restore_date : Option Text → Option Text) where
    -- What reading the file of a normalized archive gives.
    abbrev pub restore_row : RawBar F → RawBar F
    restore_row r = record r { trade_date = restore_date r.trade_date }

    abbrev pub restored : Text → Table → Table
    restored layer t =
        if lower layer == text "normalized"
        then record t { frame = record t.frame { rows = map restore_row t.frame.rows } }
        else t

    abbrev pub read_or_empty : Text → Option Table → Table
    read_or_empty layer none = empty_table required_columns
    read_or_empty layer (some t) = restored layer t

    -- `read_dataframe` of an equity archive, with no columns given
    unfoldable pub read_dataframe : Text → Text → Text → Action LakeError Lake Table
    read_dataframe source run_id layer =
        bind (lift (archive_path layer source (text "equities") run_id))
          λ path. λ lake. (ok (read_or_empty layer (lookup path lake.archives)), lake)

  module _ (coerce_date : Text → Option Text) (parse_date : Text → Option ℕ) where
    abbrev pub normalized_table : Table → Result LakeError Table
    normalized_table t =
        map_err (λ _. columns_missing) (normalize_equity_dataframe F coerce_date parse_date t.frame)
        >>= λ frame. ok (record { frame = frame; run_ids = none })

  module _ (disk : FilePath → WriteOutcome) where
    -- `write_dataframe`
    unfoldable pub write_dataframe :
        Table → Text → Text → Text → Text → Action LakeError Lake (Unit {0})
    write_dataframe t source instrument_type run_id layer =
        bind (lift (validate_partition_value run_id)) λ _.
          bind (lift (archive_path layer source instrument_type run_id)) λ path.
            bind (lift (with_run_id t run_id)) λ archived.
              λ lake. with_archives lake (write_parquet_once disk archived path lake.archives)

    module _ (restore_date : Option Text → Option Text) (coerce_date : Text → Option Text)
        (parse_date : Text → Option ℕ) where
      -- The raw half of `archive_equity_source`.
      abbrev pub archive_raw : Bool → Table → Text → Text → Action LakeError Lake Table
      archive_raw true t source run_id =
          bind (read_dataframe restore_date source run_id (text "raw"))
            λ raw. lift (ok (drop_run_id raw))
      archive_raw false t source run_id =
          bind (write_dataframe t source (text "equities") run_id (text "raw")) λ _. lift (ok t)

      -- The normalized half.
      abbrev pub archive_normalized : Bool → Table → Text → Text → Action LakeError Lake Table
      archive_normalized true raw source run_id =
          bind (read_dataframe restore_date source run_id (text "normalized"))
            λ t. lift (ok (drop_run_id t))
      archive_normalized false raw source run_id =
          bind (lift (normalized_table coerce_date parse_date raw)) λ t.
            bind (write_dataframe t source (text "equities") run_id (text "normalized"))
              λ _. lift (ok t)

      -- `archive_equity_source`
      unfoldable pub archive_equity_source :
          Table → Text → Text → Bool → Action LakeError Lake Table
      archive_equity_source t source run_id idempotent =
          bind (dataframe_archive_exists source run_id (text "raw")) λ there.
            bind (archive_raw (idempotent && there) t source run_id) λ raw.
              bind (dataframe_archive_exists source run_id (text "normalized"))
                λ done. archive_normalized (idempotent && done) raw source run_id

    -- The part of `archive_reconciliation_results` after the path is known.
    abbrev pub archive_results :
        Bool → List (PairRow F) → Text → FilePath → Action LakeError Lake (Unit {0})
    archive_results true rows run_id path lake = (ok tt, lake)
    archive_results false rows run_id path lake =
        with_results lake (write_parquet_once disk (rows, run_id) path lake.results)

    -- `archive_reconciliation_results`; the rows have all the columns that it wants
    unfoldable pub archive_reconciliation_results :
        List (PairRow F) → Text → Bool → Action LakeError Lake (Unit {0})
    archive_reconciliation_results rows run_id idempotent =
        bind (lift (reconciliation_path run_id)) λ path. λ lake.
          archive_results (idempotent && is_some (lookup path lake.results)) rows run_id path lake

  abbrev pub rows_of : Option (List (PairRow F) × Text) → List (PairRow F)
  rows_of none = []
  rows_of (some (rows, run_id)) = rows

  -- `read_reconciliation_results`
  unfoldable pub read_reconciliation_results : Text → Action LakeError Lake (List (PairRow F))
  read_reconciliation_results run_id =
      bind (lift (reconciliation_path run_id))
        λ path. λ lake. (ok (rows_of (lookup path lake.results)), lake)
