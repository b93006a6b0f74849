-- ===== src/Batch/Attempt.antt =====
-- The body of `try` in `main` of reconciliation_engine/batch.py, composed of the archives, the ingestion, the comparison, the
-- exceptions and the storage.
pub mod Quiet
pub mod Stores
use automated_reconciliation.Common.{
  ℕ, Bool, true, false, not, Option, none, some, List, [], ◌∷◌, map, ◌==◌, if◌then◌else◌, Text,
  text, count_of, Dict, lookup, nat_eq, list_eq, pair_eq, Result, ok, err, ◌>>=◌, raise_if, Action,
  bind, lift,
}
use automated_reconciliation.Common.Float.{Float}
use automated_reconciliation.Reconciliation.Validation.{
  BarKey, Bar, Frame, ValidationError, validate_equity_bars,
}
use automated_reconciliation.Reconciliation.Equities.Pairs.{
  PairRow, is_break, reconcile_equity_sources,
}
use automated_reconciliation.Reconciliation.Exceptions.{
  EquityException, from_pair, create_equity_exceptions,
}
use automated_reconciliation.Storage.Runs.{
  StorageError, Database, PipelineRun, EquityRun, get_pipeline_run, persist_equity_run,
}
use automated_reconciliation.Storage.DataLake.{
  LakeError, Table, Lake, read_dataframe, drop_run_id, dataframe_archive_exists,
  archive_equity_source, archive_reconciliation_results,
}
use automated_reconciliation.Batch.Notifications.{Summary}
use automated_reconciliation.Batch.World.{
  Ending, returned, completed, BatchError, no_database, ingestion_failed, missing_provider,
  lost_race, storage_failed, archive_failed, comparison_failed, exceptions_failed, Failure, sources,
  Ingestion, World, Surroundings, Library,
}

abbrev pub run_status : ℕ → Text
run_status count = if count == 0 then text "SUCCESS" else text "SUCCESS_WITH_BREAKS"

module _ (F : Float) where
  -- A part of the body that raises while `break_count` has a value.
  abbrev pub failing {ℓ κ} :
      {E : Type ℓ} {A : Type κ} → (E → BatchError) → ℕ → Result E A → Result Failure A
  failing wrap count (ok a) = ok a
  failing wrap count (err e) = err (wrap e, count)

  abbrev pub break_count_of : List (PairRow F) → ℕ
  break_count_of rows = count_of (λ r. is_break r.row.status) rows

  module _ (S : Type 0) (I : Ingestion F S) (L : Library F) where
    abbrev pub Step : Type 0 → Type 0
    Step A = Action Failure (World F S) A

    abbrev pub with_lake {ℓ} :
        {A : Type ℓ} → World F S → Result LakeError A × Lake F → Result Failure A × World F S
    with_lake w (outcome, lake) = (failing archive_failed 0 outcome, record w { lake = lake })

    abbrev pub on_lake : {A : Type 0} → Action LakeError (Lake F) A → Step A
    on_lake action w = with_lake w (action w.lake)

    -- `all(dataframe_archive_exists(...) for source in sources)`
    abbrev pub all_archived : Text → List Text → Step Bool
    all_archived run_id [] = lift (ok true)
    all_archived run_id (source ∷ rest) =
        bind (on_lake (dataframe_archive_exists F source run_id (text "normalized")))
          λ there. if there then all_archived run_id rest else lift (ok false)

    abbrev pub named : Text → Table F → Text × Frame F
    named source t = (source, (drop_run_id F t).frame)

    abbrev pub read_all : Text → List Text → Step (List (Text × Frame F))
    read_all run_id [] = lift (ok [])
    read_all run_id (source ∷ rest) =
        bind (on_lake (read_dataframe F L.restore_date source run_id (text "normalized")))
          λ t. bind (read_all run_id rest) λ others. lift (ok (named source t ∷ others))

    abbrev pub with_ingested :
        World F S
        → Option (List (Text × Frame F)) × S
        → Result Failure (List (Text × Frame F)) × World F S
    with_ingested w (none, s) = (err (ingestion_failed, 0), record w { ingested = s })
    with_ingested w (some frames, s) = (ok frames, record w { ingested = s })

    abbrev pub found_provider : Option (Frame F) → Result BatchError (Frame F)
    found_provider none = err missing_provider
    found_provider (some f) = ok f

    abbrev pub valid_bars : Result ValidationError (Dict BarKey (Bar F)) → Dict BarKey (Bar F)
    valid_bars (ok bars) = bars
    valid_bars (err e) = []

    -- The bars of a frame that the comparison has accepted.
    abbrev pub bars_of : Frame F → Dict BarKey (Bar F)
    bars_of f = valid_bars (validate_equity_bars F L.parse_date f)

    module _ (a : Surroundings F) where
      abbrev pub archive_all : Text → List (Text × Frame F) → Step (List (Text × Frame F))
      archive_all run_id [] = lift (ok [])
      archive_all run_id ((source, f) ∷ rest) =
          bind
            (on_lake (
              archive_equity_source F a.disk L.restore_date L.coerce_date L.parse_date
                (record { frame = f; run_ids = none }) source run_id true))
            λ t. bind (archive_all run_id rest) λ others. lift (ok ((source, t.frame) ∷ others))

      -- The frames of the providers: read, or fetched and archived.
      abbrev pub provider_bars : Bool → Text → List Text → ℕ → ℕ × ℕ → Step (List (Text × Frame F))
      provider_bars true run_id symbols date scaling = read_all run_id sources
      provider_bars false run_id symbols date (buckets, workers) =
          bind (λ w. with_ingested w (I.fetch run_id symbols date buckets workers w.ingested))
            λ frames. archive_all run_id frames

      abbrev pub with_database :
          World F S → ℕ → Result StorageError Bool × Database F → Result Failure Bool × World F S
      with_database w count (outcome, database) =
          (failing storage_failed count outcome, record w { database = database })

      abbrev pub summary_with : Text → List Text → ℕ → Text → ℕ → Bool → Summary
      summary_with run_id symbols date status count again = record {
        run_id = run_id;
        status = status;
        break_count = count;
        symbols = symbols;
        control_date = L.isoformat date;
        already_completed = some again;
      }

      abbrev pub stored_summary :
          Text → List Text → ℕ → ℕ → Option PipelineRun → Result Failure Summary
      stored_summary run_id symbols date count none = err (lost_race, count)
      stored_summary run_id symbols date count (some r) =
          ok (summary_with run_id symbols date r.status r.break_count true)

      abbrev pub after_persist :
          Bool → Text → List Text → ℕ → ℕ → World F S → Result Failure Summary
      after_persist true run_id symbols date count w =
          ok (summary_with run_id symbols date (run_status count) count false)
      after_persist false run_id symbols date count w =
          stored_summary run_id symbols date count (get_pipeline_run F run_id w.database)

      -- The arguments of `persist_equity_run`.
      abbrev pub run_of :
          Text
          → Frame F × Frame F × Frame F
          → List (PairRow F)
          → List (EquityException F)
          → EquityRun F
      run_of run_id (yahoo, alpaca, massive) rows exceptions = record {
        run_id = run_id;
        started_at = a.started_at;
        finished_at = a.finished_at;
        status = run_status (break_count_of rows);
        yahoo_bars = bars_of yahoo;
        alpaca_bars = bars_of alpaca;
        massive_bars = some (bars_of massive);
        reconciliation = map (from_pair F) rows;
        exceptions = exceptions;
        trace_id = a.trace_id;
        root_span_id = a.root_span_id;
      }

      -- The exceptions of the breaks, the three frames, and the call of `persist_equity_run`.
      abbrev pub persist : Text → List (Text × Frame F) → List (PairRow F) → Step Bool
      persist run_id frames rows =
          bind
            (lift (
              failing exceptions_failed (break_count_of rows) (
                create_equity_exceptions F L.show_date L.uuid5 a.clock run_id
                  (map (from_pair F) rows))))
            λ exceptions.
              bind
                (lift (
                  failing (λ e. e) (break_count_of rows)
                    (do
                      yahoo ← found_provider (lookup (text "YAHOO") frames)
                      alpaca ← found_provider (lookup (text "ALPACA") frames)
                      massive ← found_provider (lookup (text "MASSIVE") frames)
                      ok (yahoo, alpaca, massive))))
                λ three. λ w. with_database w (break_count_of rows) (
                  persist_equity_run F L.single a.refuses (run_of run_id three rows exceptions)
                    w.database)

      -- The body of `try` from the comparison on.
      unfoldable pub compare_and_store : Text → List Text → ℕ → List (Text × Frame F) → Step Summary
      compare_and_store run_id symbols date frames =
          bind
            (lift (
              failing comparison_failed 0
                (reconcile_equity_sources F L.parse_date L.merge L.defaults frames)))
            λ rows. bind (on_lake (archive_reconciliation_results F a.disk rows run_id true)) λ _.
              bind (persist run_id frames rows) λ persisted.
                λ w. (after_persist persisted run_id symbols date (break_count_of rows) w, w)

      -- The body of `try` for a run that is not stored.
      unfoldable pub compute : Text → List Text → ℕ → ℕ × ℕ → Step Summary
      compute run_id symbols date scaling = bind (all_archived run_id sources) λ complete.
          bind (provider_bars complete run_id symbols date scaling)
            λ frames. compare_and_store run_id symbols date frames

      abbrev pub unless_stored : Option PipelineRun → Text → List Text → ℕ → ℕ × ℕ → Step Ending
      unless_stored (some r) run_id symbols date scaling =
          lift (ok (returned (summary_with run_id symbols date r.status r.break_count true)))
      unless_stored none run_id symbols date scaling =
          bind (compute run_id symbols date scaling) λ summary. lift (ok (completed summary))

      -- The body of `try`.
      unfoldable pub attempt : Text → List Text → ℕ → ℕ × ℕ → Step Ending
      attempt run_id symbols date scaling =
          bind (lift (raise_if (not a.initializes) (no_database, 0))) λ _.
            λ w. unless_stored (get_pipeline_run F run_id w.database) run_id symbols date scaling w
