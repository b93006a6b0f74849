-- ===== src/Storage/DataLake/Tests.antt =====
-- Archives of concrete frames, and the theorem about them at an input.
use automated_reconciliation.Common.{
  ◌≡◌, refl, true, false, Option, none, some, [], ◌∷◌, Text, text, Result, ok, err, nat_eq, list_eq,
  to_upper, to_lower, strip, lstrip, rstrip, normalize,
}
use automated_reconciliation.Reconciliation.Tests.{units, parse_date, yahoo, alpaca}
use automated_reconciliation.Scaling.Execution.{
  WriteOutcome, written, not_written, normalize_equity_dataframe,
}
use automated_reconciliation.Storage.DataLake.{
  FilePath, LakeError, bad_source, bad_partition_value, run_id_mismatch, archive_exists,
  archive_path, validate_partition_value, reconciliation_path, Table, Lake, with_run_id,
  write_dataframe, write_parquet_once, archive_equity_source, dataframe_archive_exists,
  read_dataframe,
}

abbrev keep_date : Text → Option Text
keep_date date = some date

abbrev same_date : Option Text → Option Text
same_date d = d

abbrev works : FilePath → WriteOutcome
works path = written

abbrev fails : FilePath → WriteOutcome
fails path = not_written

abbrev plain : Table units
plain = record { frame = yahoo; run_ids = none }

abbrev other : Table units
other = record { frame = alpaca; run_ids = none }

abbrev empty_lake : Lake units
empty_lake = record { archives = []; results = [] }

abbrev first_call : Result LakeError (Table units) × Lake units
first_call =
    archive_equity_source units works same_date keep_date parse_date plain (text "yahoo")
      (text "r-1") true empty_lake

abbrev table_or : Table units → Result LakeError (Table units) → Table units
table_or t (ok u) = u
table_or t (err e) = t

abbrev canonical : Table units
canonical = table_or plain first_call.0

unknown_source :
    archive_path (text "RAW") (text "BLOOMBERG") (text "equities") (text "r") ≡ err bad_source
unfolding archive_path to_lower to_upper
unknown_source = refl

outside : reconciliation_path (text "../other") ≡ err bad_partition_value
unfolding reconciliation_path validate_partition_value
outside = refl

another_run :
    with_run_id units (record plain { run_ids = some (none ∷ some (text "r-2") ∷ []) }) (text "r-1")
    ≡ err run_id_mismatch
unfolding with_run_id
another_run = refl

written_before :
    (archive_equity_source units works same_date keep_date parse_date plain
      (text "yahoo")
      (text "r-1")
      false
      first_call.1).0
    ≡ err archive_exists
unfolding archive_equity_source archive_path write_dataframe write_parquet_once with_run_id
    dataframe_archive_exists read_dataframe validate_partition_value normalize_equity_dataframe
    to_upper to_lower strip lstrip rstrip normalize
written_before = refl
