-- ===== src/Storage/Runs/Atomic.antt =====
-- `persist_equity_run` stores a run as a whole or not at all, and once.
use automated_reconciliation.Common.{
  ◌≡◌, refl, sym, Bool, true, false, ◌||◌, none, some, [], ◌∷◌, ◌++◌, Text, Dict, lookup, Distinct,
  is_some, Eq, nat_eq, list_eq, pair_eq, Result, ok, err, arith, subst, Bool-cases, Option-cases,
  inl, inr,
}
use mathlib.Core.List.{append-nil}
use automated_reconciliation.Common.Float.{Float}
use automated_reconciliation.Storage.Tables.{insert_rows, insert_rows-appends}
use automated_reconciliation.Storage.Runs.{
  Statement, insert_run, insert_bars, insert_results, insert_exceptions, begin_transaction,
  select_run, StorageError, Database, PipelineRun, EquityRun, summary_of, bar_rows,
  reconciliation_rows, exception_rows, statement, insert_many, insert_all, end_transaction,
  persist_equity_run,
}

module _ (F : Float) where
  -- The primary keys of the tables.
  pub record IsKeyed (db : Database F) : Type 0 where
    pub runs : Distinct db.pipeline_runs
    pub bars : Distinct db.equity_bars_staging
    pub results : Distinct db.equity_reconciliation_results
    pub exceptions : Distinct db.equity_exceptions

  module _ (single : F.Num → F.Num) (refuses : Statement → Bool) where
    statement-appends {ℓ} :
        {K V : Type ℓ} ⦃e : Eq K⦄ (s : Statement) (rows d d' : Dict K V)
        → statement F single refuses s (insert_rows rows d) ≡ ok d'
        → insert_rows rows d ≡ some d'
    statement-appends s rows d d' h = ground arith

    insert_many-appends {ℓ} :
        {K V : Type ℓ} ⦃e : Eq K⦄ (s : Statement) (rows d d' : Dict K V)
        → insert_many F single refuses s rows d ≡ ok d'
        → Distinct d
        → (d' ≡ d ++ rows) × Distinct d'
    insert_many-appends {K = K} {V = V} s [] d d' h k =
        let same : d ≡ d' = cc in
        (rw (append-nil) (sym same), subst (λ (x : Dict K V). Distinct x) same k)
    insert_many-appends s (row ∷ rows) d d' h k =
        insert_rows-appends (row ∷ rows) d d' (statement-appends s (row ∷ rows) d d' h) k

    -- The rows of a run behind those that were there.
    abbrev pub with_run : EquityRun F → Database F → Database F
    with_run r db = record {
      pipeline_runs = db.pipeline_runs ++ (r.run_id, summary_of F r) ∷ [];
      equity_bars_staging = db.equity_bars_staging ++ bar_rows F single refuses r;
      equity_reconciliation_results =
          db.equity_reconciliation_results ++ reconciliation_rows F r.run_id r.reconciliation;
      equity_exceptions = db.equity_exceptions ++ exception_rows F r.exceptions;
    }

    -- What the statements have done, when none of them raised.
    record Inserted (r : EquityRun F) (db db' : Database F) : Type 0 where
      at_run :
          statement F single refuses insert_run
            (insert_rows ((r.run_id, summary_of F r) ∷ []) db.pipeline_runs)
          ≡ ok db'.pipeline_runs
      at_bars :
          insert_many F single refuses insert_bars
            (bar_rows F single refuses r)
            db.equity_bars_staging
          ≡ ok db'.equity_bars_staging
      at_results :
          insert_many F single refuses insert_results
            (reconciliation_rows F r.run_id r.reconciliation)
            db.equity_reconciliation_results
          ≡ ok db'.equity_reconciliation_results
      at_exceptions :
          insert_many F single refuses insert_exceptions
            (exception_rows F r.exceptions)
            db.equity_exceptions
          ≡ ok db'.equity_exceptions

    insert_all-Inserted :
        (r : EquityRun F) (db db' : Database F)
        → insert_all F single refuses r db ≡ ok db'
        → Inserted r db db'
    unfolding insert_all
    insert_all-Inserted r db db' h = record {
      at_run = ground (arith, h);
      at_bars = ground (arith, h);
      at_results = ground (arith, h);
      at_exceptions = ground (arith, h);
    }

    insert_all-appends :
        (r : EquityRun F) (db db' : Database F)
        → IsKeyed db
        → insert_all F single refuses r db ≡ ok db'
        → (db' ≡ with_run r db) × IsKeyed db'
    insert_all-appends r db db' k h =
        let i = insert_all-Inserted r db db' h in
        let row : Dict Text PipelineRun = (r.run_id, summary_of F r) ∷ [] in
        let (p, p') =
          insert_rows-appends row db.pipeline_runs db'.pipeline_runs
            (statement-appends insert_run row db.pipeline_runs db'.pipeline_runs i.at_run) k.runs in
        let (q, q') =
          insert_many-appends insert_bars (bar_rows F single refuses r) db.equity_bars_staging
            db'.equity_bars_staging i.at_bars k.bars in
        let (s, s') =
          insert_many-appends insert_results (reconciliation_rows F r.run_id r.reconciliation)
            db.equity_reconciliation_results db'.equity_reconciliation_results i.at_results
            k.results in
        let (t, t') =
          insert_many-appends insert_exceptions (exception_rows F r.exceptions) db.equity_exceptions
            db'.equity_exceptions i.at_exceptions k.exceptions in
        (cc, record { runs = p'; bars = q'; results = s'; exceptions = t' })

    -- What a call returns, with what it has made of the database.
    abbrev pub Effect : EquityRun F → Database F → Result StorageError Bool × Database F → Type 0
    Effect r db (ok true, db') =
        (lookup r.run_id db.pipeline_runs ≡ none) × (db' ≡ with_run r db) × IsKeyed db'
    Effect r db (ok false, db') = (is_some (lookup r.run_id db.pipeline_runs) ≡ true) × (db' ≡ db)
    Effect r db (err e, db') = db' ≡ db

    end_transaction-Effect :
        (r : EquityRun F) (db : Database F) (result : Result StorageError (Database F))
        → (lookup r.run_id db.pipeline_runs ≡ none)
        → ((db' : Database F) → result ≡ ok db' → (db' ≡ with_run r db) × IsKeyed db')
        → Effect r db (end_transaction F single refuses db result)
    end_transaction-Effect r db (err e) new done = refl
    end_transaction-Effect r db (ok db') new done = (new, (done db' refl).0, (done db' refl).1)

    -- If the primary keys of the tables hold, then `persist_equity_run` either raises and leaves the database as it
    -- was, whatever statement failed; or returns False, the run was stored already, and the database is as
    -- it was; or returns True, the run was not stored, and the database has every row of the run behind those
    -- that were there, with the primary keys still holding.
    pub persist_equity_run-Effect :
        (r : EquityRun F) (db : Database F)
        → IsKeyed db
        → Effect r db (persist_equity_run F single refuses r db)
    unfolding persist_equity_run
    persist_equity_run-Effect r db k =
        elim (Bool-cases (refuses begin_transaction || refuses select_run)) [
          | inl refused ↦ rw (refused, persist_equity_run) refl
          | inr open_ ↦ elim (Option-cases (lookup r.run_id db.pipeline_runs)) [
            | inl new ↦
                rw (open_, persist_equity_run, new)
                  (end_transaction-Effect r db (insert_all F single refuses r db) new
                    (λ db'. insert_all-appends r db db' k))
            | inr (run, old) ↦ rw (open_, persist_equity_run, old) (rw (old) refl, refl)
          ]
        ]
