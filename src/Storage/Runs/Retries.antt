-- ===== src/Storage/Runs/Retries.antt =====
-- When `persist_equity_run` succeeds, and what a retry of it does.
use automated_reconciliation.Common.{
  ◌≡◌, refl, ◌∙◌, Bool, true, false, none, some, List, [], ◌∷◌, ◌++◌, Text, Dict, lookup, Distinct,
  is_some, any_of, Eq, beq_refl, nat_eq, list_eq, pair_eq, Result, ok, All, subst,
}
use mathlib.Core.List.{append-nil}
use automated_reconciliation.Common.Float.{Float}
use automated_reconciliation.Reconciliation.Exceptions.{EquityException}
use automated_reconciliation.Storage.Tables.{insert_rows-Distinct, lookup-append, Distinct-fresh}
use automated_reconciliation.Storage.Runs.{
  Statement, insert_run, insert_bars, insert_results, insert_exceptions, begin_transaction,
  select_run, commit, StorageError, Database, PipelineRun, EquityRun, summary_of, bar_rows,
  reconciliation_rows, exception_rows, is_orphan, get_pipeline_run, insert_many, insert_all,
  persist_equity_run,
}
use automated_reconciliation.Storage.Runs.Atomic.{
  IsKeyed, with_run, Effect, persist_equity_run-Effect,
}

module _ (F : Float) (single : F.Num → F.Num) where
  pub stored-with_run :
      (refuses : Statement → Bool) (r : EquityRun F) (db db' : Database F)
      → lookup r.run_id db.pipeline_runs ≡ none
      → db' ≡ with_run F single refuses r db
      → get_pipeline_run F r.run_id db' ≡ some (summary_of F r)
  stored-with_run refuses r db db' new e = rw e (
      lookup-append r.run_id db.pipeline_runs ((r.run_id, summary_of F r) ∷ [])
      ∙ rw (new, beq_refl r.run_id) refl)

  -- Once a call has stored a run, every later call with the same run_id, whatever else it is given, returns False
  -- and changes nothing, if the database answers it; and `get_pipeline_run` finds the summary of the first.
  pub persist_equity_run-again :
      (refuses refuses' : Statement → Bool) (r r' : EquityRun F) (db db' : Database F)
      → IsKeyed F db
      → persist_equity_run F single refuses r db ≡ (ok true, db')
      → r'.run_id ≡ r.run_id
      → refuses' begin_transaction ≡ false
      → refuses' select_run ≡ false
      → (persist_equity_run F single refuses' r' db' ≡ (ok false, db'))
        × (get_pipeline_run F r.run_id db' ≡ some (summary_of F r))
  unfolding persist_equity_run
  persist_equity_run-again refuses refuses' r r' db db' k run same b s =
      let (new, e, _) : Effect F single refuses r db (ok true, db') =
        subst (λ (x : Result StorageError Bool × Database F). Effect F single refuses r db x) run
          (persist_equity_run-Effect F single refuses r db k) in
      let found = stored-with_run refuses r db db' new e in
      (rw (b, s, same, found, persist_equity_run) refl, found)

  module _ (refuses : Statement → Bool) (willing : (s : Statement) → refuses s ≡ false) where
    insert_many-Distinct {ℓ} :
        {K V : Type ℓ} ⦃e : Eq K⦄ (s : Statement) (rows d : Dict K V)
        → Distinct (d ++ rows)
        → insert_many F single refuses s rows d ≡ ok (d ++ rows)
    insert_many-Distinct s [] d h = rw (append-nil) refl
    insert_many-Distinct s (row ∷ rows) d h =
        rw (willing s, insert_rows-Distinct (row ∷ rows) d h) refl

    no_orphans :
        (runs : Dict Text PipelineRun) (run_id : Text) (es : List (EquityException F))
        → is_some (lookup run_id runs) ≡ true
        → All (λ (e : EquityException F). e.run_id ≡ run_id) es
        → any_of (is_orphan F runs) es ≡ false
    no_orphans runs run_id [] h k = refl
    no_orphans runs run_id (e ∷ es) h k = rw (k.0, h, no_orphans runs run_id es h k.1) refl

    -- If the database refuses no statement of its own accord, the keys of the run's rows are new and distinct,
    -- and the exceptions are of this run, then the run is stored: the call returns True.
    pub persist_equity_run-stores :
        (r : EquityRun F) (db : Database F)
        → IsKeyed F (with_run F single refuses r db)
        → All (λ (e : EquityException F). e.run_id ≡ r.run_id) r.exceptions
        → persist_equity_run F single refuses r db ≡ (ok true, with_run F single refuses r db)
    unfolding persist_equity_run insert_all
    persist_equity_run-stores r db k own =
        let row : Dict Text PipelineRun = (r.run_id, summary_of F r) ∷ [] in
        let new = Distinct-fresh db.pipeline_runs r.run_id (summary_of F r) [] k.runs in
        let stored = stored-with_run refuses r db (with_run F single refuses r db) new refl in
        let orphans =
          no_orphans (db.pipeline_runs ++ row) r.run_id r.exceptions (rw stored refl) own in
        rw
          (
            willing begin_transaction,
            willing select_run,
            new,
            willing insert_run,
            insert_rows-Distinct row db.pipeline_runs k.runs,
            insert_many-Distinct insert_bars (bar_rows F single refuses r) db.equity_bars_staging
                k.bars,
            insert_many-Distinct insert_results (reconciliation_rows F r.run_id r.reconciliation)
                db.equity_reconciliation_results k.results,
            orphans,
            insert_many-Distinct insert_exceptions (exception_rows F r.exceptions)
                db.equity_exceptions k.exceptions,
            willing commit,
          )
          refl
