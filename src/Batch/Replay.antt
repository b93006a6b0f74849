-- ===== src/Batch/Replay.antt =====
-- `replay_archived_run` of reconciliation_engine/batch.py: the comparison of a run once more, from its archives. The default tolerances of
-- `reconcile_equity_sources` are a parameter.
use automated_reconciliation.Common.{
  ℕ, ◌≡◌, refl, ◌∙◌, inl, inr, Result-cases, Bool, Option, List, [], ◌∷◌, length, ltb, any_of, Text,
  text, nat_eq, list_eq, pair_eq, Result, ok, err, raise_if, Action, bind, lift, map_err, continue,
}
use automated_reconciliation.Common.Float.{Float}
use automated_reconciliation.Reconciliation.Validation.{
  BarKey, Bar, Frame, required_columns, is_missing,
}
use automated_reconciliation.Reconciliation.Equities.{OuterMerge, Tolerances, ReconcileError}
use automated_reconciliation.Reconciliation.Equities.Pairs.{PairRow, reconcile_equity_sources}
use automated_reconciliation.Storage.DataLake.{LakeError, Table, Lake, archive_path, read_dataframe}
use automated_reconciliation.Batch.World.{sources}

-- The FileNotFoundError, the KeyError of `frame[EQUITY_COLUMNS]`, and the exceptions of the parts.
pub data ReplayError : Type 0 where
  too_few_archives no_column : ReplayError
  unreadable : LakeError → ReplayError
  not_comparable : ReconcileError → ReplayError

module _ (F : Float) (restore_date : Option Text → Option Text) where
  -- `not frame.empty`, of a frame that has columns
  abbrev pub keep_frame : Text → Table F → List (Text × Frame F) → List (Text × Frame F)
  keep_frame source t rest = elim t.frame.rows [ [] ↦ rest | row ∷ rows ↦ (source, t.frame) ∷ rest ]

  abbrev pub lake_read : {A : Type 0} → Action LakeError (Lake F) A → Action ReplayError (Lake F) A
  lake_read action lake = (map_err unreadable (action lake).0, (action lake).1)

  -- The frames of the archives that are there and have rows.
  unfoldable pub available_bars :
      Text → List Text → Action ReplayError (Lake F) (List (Text × Frame F))
  available_bars run_id [] = lift (ok [])
  available_bars run_id (source ∷ rest) =
      bind (lake_read (read_dataframe F restore_date source run_id (text "normalized")))
        λ t. bind (available_bars run_id rest) λ others. lift (ok (keep_frame source t others))

  abbrev pub lacks_column : Text × Frame F → Bool
  lacks_column (source, f) = any_of (is_missing f.columns) required_columns

  module _ (parse_date : Text → Option ℕ) (M : OuterMerge BarKey (Bar F))
      (defaults : Tolerances F) where
    -- `replay_archived_run`
    unfoldable pub replay_archived_run : Text → Action ReplayError (Lake F) (List (PairRow F))
    replay_archived_run run_id = bind (available_bars run_id sources) λ frames.
        bind (lift (raise_if (ltb (length frames) 2) too_few_archives)) λ _.
          bind (lift (raise_if (any_of lacks_column frames) no_column)) λ _.
            lift (map_err not_comparable (reconcile_equity_sources F parse_date M defaults frames))

    bind_keeps :
        {A B : Type 0} (first : Action ReplayError (Lake F) A)
        (next : A → Action ReplayError (Lake F) B) (s : Lake F)
        → (first s).1 ≡ s
        → ((a : A) (m : Lake F) → (next a m).1 ≡ m)
        → (bind first next s).1 ≡ s
    bind_keeps {A = A} first next s h k = by_first (first s) h
      where
        by_first : (r : Result ReplayError A × Lake F) → r.1 ≡ s → (continue next r).1 ≡ s
        by_first (ok a, m) e = k a m ∙ e
        by_first (err x, m) e = e

    read_keeps :
        (source run_id layer : Text) (s : Lake F)
        → (read_dataframe F restore_date source run_id layer s).1 ≡ s
    unfolding read_dataframe
    read_keeps source run_id layer s =
        elim (Result-cases (archive_path layer source (text "equities") run_id)) [
          | inl (path, at) ↦ rw at refl
          | inr (x, bad) ↦ rw bad refl
        ]

    available_bars_keeps :
        (run_id : Text) (from : List Text) (s : Lake F) → (available_bars run_id from s).1 ≡ s
    unfolding available_bars
    available_bars_keeps run_id [] s = refl
    available_bars_keeps run_id (source ∷ rest) s =
        bind_keeps (lake_read (read_dataframe F restore_date source run_id (text "normalized"))) _ s
          (read_keeps source run_id (text "normalized") s)
          (λ t. λ m.
            bind_keeps (available_bars run_id rest) _ m (available_bars_keeps run_id rest m)
              (λ others k. refl))

    -- A replay writes nothing, whatever it finds and however it ends.
    pub replay_archived_run_keeps :
        (run_id : Text) (s : Lake F) → (replay_archived_run run_id s).1 ≡ s
    unfolding replay_archived_run
    replay_archived_run_keeps run_id s =
        bind_keeps (available_bars run_id sources) _ s (available_bars_keeps run_id sources s)
          (λ frames m.
            bind_keeps (lift (raise_if (ltb (length frames) 2) too_few_archives)) _ m refl (λ _ n.
              bind_keeps (lift (raise_if (any_of lacks_column frames) no_column)) _ n refl
                (λ _ k. refl)))
