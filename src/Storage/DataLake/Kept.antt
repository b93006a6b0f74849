-- ===== src/Storage/DataLake/Kept.antt =====
-- No call of the data lake changes an archive that is there, whether it is idempotent or not, and whether it returns or raises.
use automated_reconciliation.Common.{
  ℕ, Bool, true, false, ◌&&◌, Option, Text, text, nat_eq, list_eq, Result, ok, err, Action, bind,
  lift, continue,
}
use automated_reconciliation.Common.Float.{Float}
use automated_reconciliation.Scaling.Execution.{WriteOutcome}
use automated_reconciliation.Storage.DataLake.{
  FilePath, LakeError, archive_path, validate_partition_value, Table, Lake, with_run_id,
  drop_run_id, write_dataframe, read_dataframe, dataframe_archive_exists, normalized_table,
  archive_raw, archive_normalized, archive_equity_source,
}
use automated_reconciliation.Storage.DataLake.WriteOnce.{Keeps, write_parquet_once-Keeps}

module _ (F : Float) where
  -- Code that leaves every archive.
  abbrev pub IsKeeping : {A : Type 0} → Action LakeError (Lake F) A → Type 0
  IsKeeping act = (s : Lake F) → Keeps s.archives (act s).1.archives

  bind-IsKeeping :
      {A B : Type 0} (first : Action LakeError (Lake F) A) (next : A → Action LakeError (Lake F) B)
      → IsKeeping first
      → ((a : A) → IsKeeping (next a))
      → IsKeeping (bind first next)
  bind-IsKeeping {A = A} first next h k s = at_first (first s) (h s)
    where
      at_first :
          (r : Result LakeError A × Lake F)
          → Keeps s.archives r.1.archives
          → Keeps s.archives (continue next r).1.archives
      at_first (err e, m) kept = kept
      at_first (ok a, m) kept = λ path v there. k a m path v (kept path v there)

  lift-IsKeeping : {A : Type 0} (r : Result LakeError A) → IsKeeping (lift r)
  lift-IsKeeping r s path v there = there

  module _ (disk : FilePath → WriteOutcome) where
    write_dataframe-IsKeeping :
        (t : Table F) (source instrument_type run_id layer : Text)
        → IsKeeping (write_dataframe F disk t source instrument_type run_id layer)
    unfolding write_dataframe
    write_dataframe-IsKeeping t source instrument_type run_id layer =
        bind-IsKeeping (lift (validate_partition_value run_id)) _
          (lift-IsKeeping (validate_partition_value run_id))
          λ _.
            bind-IsKeeping (lift (archive_path layer source instrument_type run_id)) _
              (lift-IsKeeping (archive_path layer source instrument_type run_id))
              λ path.
                bind-IsKeeping (lift (with_run_id F t run_id)) _
                  (lift-IsKeeping (with_run_id F t run_id))
                  λ archived s. write_parquet_once-Keeps disk archived path s.archives

    exists-IsKeeping :
        (source run_id layer : Text) → IsKeeping (dataframe_archive_exists F source run_id layer)
    unfolding dataframe_archive_exists
    exists-IsKeeping source run_id layer =
        bind-IsKeeping (lift (archive_path layer source (text "equities") run_id)) _
          (lift-IsKeeping (archive_path layer source (text "equities") run_id))
          λ path s at v there. there

    module _ (restore_date : Option Text → Option Text) (coerce_date : Text → Option Text)
        (parse_date : Text → Option ℕ) where
      read-IsKeeping :
          (source run_id layer : Text)
          → IsKeeping (read_dataframe F restore_date source run_id layer)
      unfolding read_dataframe
      read-IsKeeping source run_id layer =
          bind-IsKeeping (lift (archive_path layer source (text "equities") run_id)) _
            (lift-IsKeeping (archive_path layer source (text "equities") run_id))
            λ path s at v there. there

      archive_raw-IsKeeping :
          (there : Bool) (t : Table F) (source run_id : Text)
          → IsKeeping (archive_raw F disk restore_date coerce_date parse_date there t source run_id)
      archive_raw-IsKeeping true t source run_id =
          bind-IsKeeping (read_dataframe F restore_date source run_id (text "raw")) _
            (read-IsKeeping source run_id (text "raw"))
            λ raw. lift-IsKeeping (ok (drop_run_id F raw))
      archive_raw-IsKeeping false t source run_id =
          bind-IsKeeping (write_dataframe F disk t source (text "equities") run_id (text "raw")) _
            (write_dataframe-IsKeeping t source (text "equities") run_id (text "raw"))
            λ _. lift-IsKeeping (ok t)

      archive_normalized-IsKeeping :
          (done : Bool) (raw : Table F) (source run_id : Text)
          → IsKeeping
              (archive_normalized F disk restore_date coerce_date parse_date done raw source run_id)
      archive_normalized-IsKeeping true raw source run_id =
          bind-IsKeeping (read_dataframe F restore_date source run_id (text "normalized")) _
            (read-IsKeeping source run_id (text "normalized"))
            λ t. lift-IsKeeping (ok (drop_run_id F t))
      archive_normalized-IsKeeping false raw source run_id =
          bind-IsKeeping (lift (normalized_table F coerce_date parse_date raw)) _
            (lift-IsKeeping (normalized_table F coerce_date parse_date raw))
            λ t.
              bind-IsKeeping
                (write_dataframe F disk t source (text "equities") run_id (text "normalized")) _
                (write_dataframe-IsKeeping t source (text "equities") run_id (text "normalized"))
                λ _. lift-IsKeeping (ok t)

      -- Whatever the disk does, a call leaves every archive that was there.
      pub archive_equity_source-IsKeeping :
          (t : Table F) (source run_id : Text) (idempotent : Bool)
          → IsKeeping (
              archive_equity_source F disk restore_date coerce_date parse_date t source run_id
                idempotent)
      unfolding archive_equity_source
      archive_equity_source-IsKeeping t source run_id idempotent =
          bind-IsKeeping (dataframe_archive_exists F source run_id (text "raw")) _
            (exists-IsKeeping source run_id (text "raw"))
            λ there.
              bind-IsKeeping
                (archive_raw F disk restore_date coerce_date parse_date (idempotent && there) t
                  source run_id)
                _ (archive_raw-IsKeeping (idempotent && there) t source run_id)
                λ raw.
                  bind-IsKeeping (dataframe_archive_exists F source run_id (text "normalized")) _
                    (exists-IsKeeping source run_id (text "normalized"))
                    λ done. archive_normalized-IsKeeping (idempotent && done) raw source run_id
