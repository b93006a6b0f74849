-- ===== src/Storage/Runs.antt =====
-- `persist_equity_run`, `get_pipeline_run`, `_equity_bar_rows` and `_reconciliation_rows` of
-- reconciliation_engine/storage/duckdb.py, with the four tables that they use. What a value of a FLOAT column is stored as, and
-- which statement the database refuses for a reason of its own, are parameters.
pub mod Atomic
pub mod Retries
pub mod Counts
mod Tests
use automated_reconciliation.Common.{
  ℕ, Bool, true, false, not, ◌||◌, Option, none, some, List, [], ◌∷◌, ◌++◌, map, if◌then◌else◌,
  Text, text, length, Dict, lookup, is_some, any_of, count_of, Eq, nat_eq, list_eq, pair_eq, Result,
  ok, err, ◌>>=◌, ◌>>◌, raise_if,
}
use automated_reconciliation.Common.Float.{Float}
use automated_reconciliation.Reconciliation.Validation.{BarKey, Bar}
use automated_reconciliation.Reconciliation.Equities.{Status, matched, warn, break}
use automated_reconciliation.Reconciliation.Equities.Pairs.{BreakReason, is_break}
use automated_reconciliation.Reconciliation.Exceptions.{EquityException, BreakRow}
use automated_reconciliation.Storage.Tables.{insert_rows}

-- A row of pipeline_runs, under its run_id.
pub record PipelineRun : Type 0 where
  pub started_at : Text
  pub finished_at : Text
  pub status : Text
  pub yahoo_row_count : ℕ
  pub alpaca_row_count : ℕ
  pub massive_row_count : ℕ
  pub match_count : ℕ
  pub break_count : ℕ
  pub trace_id : Option Text
  pub root_span_id : Option Text

-- The statements of the transaction.
pub data Statement : Type 0 where
  begin_transaction select_run insert_run insert_bars insert_results insert_exceptions : Statement
  commit : Statement

-- The constraints are the primary keys and the references to pipeline_runs.
pub data StorageError : Type 0 where
  refused_statement constraint_violated : StorageError

abbrev pub is_match : Status → Bool
is_match matched = true
is_match warn = false
is_match break = false

-- run_id and source, with the symbol and the date.
abbrev pub StagedKey : Type 0
StagedKey = (Text × Text) × BarKey

-- run_id and metric_name, with the symbol and the date, and the two sources.
abbrev pub ResultKey : Type 0
ResultKey = ((Text × Text) × BarKey) × (Text × Text)

abbrev pub constraint_checked {ℓ} : {A : Type ℓ} → Option A → Result StorageError A
constraint_checked none = err constraint_violated
constraint_checked (some a) = ok a

module _ (F : Float) where
  pub record StagedBar : Type 0 where
    pub open_ : F.Num
    pub high : F.Num
    pub low : F.Num
    pub close : F.Num
    pub volume : F.Num

  pub record StoredResult : Type 0 where
    pub source_a_value : Option F.Num
    pub source_b_value : Option F.Num
    pub difference : Option F.Num
    pub is_discrepancy : Bool
    pub status : Status
    pub break_reason : Option (Option BreakReason)

  pub record Database : Type 0 where
    pub pipeline_runs : Dict Text PipelineRun
    pub equity_bars_staging : Dict StagedKey StagedBar
    pub equity_reconciliation_results : Dict ResultKey StoredResult
    pub equity_exceptions : Dict Text (EquityException F)

  -- The arguments of `persist_equity_run`; each bar stands with its symbol and date.
  pub record EquityRun : Type 0 where
    pub run_id : Text
    pub started_at : Text
    pub finished_at : Text
    pub status : Text
    pub yahoo_bars : Dict BarKey (Bar F)
    pub alpaca_bars : Dict BarKey (Bar F)
    pub massive_bars : Option (Dict BarKey (Bar F))
    pub reconciliation : List (BreakRow F)
    pub exceptions : List (EquityException F)
    pub trace_id : Option Text
    pub root_span_id : Option Text

  -- `_reconciliation_rows`: two rows for each row of the result
  unfoldable pub reconciliation_rows : Text → List (BreakRow F) → Dict ResultKey StoredResult
  reconciliation_rows run_id [] = []
  reconciliation_rows run_id (r ∷ rs) =
      (
        (((run_id, text "close"), r.key), (r.source_a, r.source_b)),
        record {
          source_a_value = r.row.close_a;
          source_b_value = r.row.close_b;
          difference = r.row.close_difference;
          is_discrepancy = is_break r.row.status;
          status = r.row.status;
          break_reason = r.break_reason;
        },
      )
      ∷ (
        (((run_id, text "volume"), r.key), (r.source_a, r.source_b)),
        record {
          source_a_value = r.row.volume_a;
          source_b_value = r.row.volume_b;
          difference = r.row.volume_difference;
          is_discrepancy = is_break r.row.status;
          status = r.row.status;
          break_reason = r.break_reason;
        },
      )
      ∷ reconciliation_rows run_id rs

  -- `_exception_rows`, under their primary key
  abbrev pub exception_rows : List (EquityException F) → Dict Text (EquityException F)
  exception_rows es = map (λ e. (e.exception_id, e)) es

  abbrev pub rows_or_none : Option (Dict BarKey (Bar F)) → Dict BarKey (Bar F)
  rows_or_none none = []
  rows_or_none (some bars) = bars

  unfoldable pub summary_of : EquityRun → PipelineRun
  summary_of r = record {
    started_at = r.started_at;
    finished_at = r.finished_at;
    status = r.status;
    yahoo_row_count = length r.yahoo_bars;
    alpaca_row_count = length r.alpaca_bars;
    massive_row_count = length (rows_or_none r.massive_bars);
    match_count = count_of (λ b. is_match b.row.status) r.reconciliation;
    break_count = count_of (λ b. is_break b.row.status) r.reconciliation;
    trace_id = r.trace_id;
    root_span_id = r.root_span_id;
  }

  abbrev pub is_orphan : Dict Text PipelineRun → EquityException F → Bool
  is_orphan runs e = not (is_some (lookup e.run_id runs))

  -- `get_pipeline_run`
  abbrev pub get_pipeline_run : Text → Database → Option PipelineRun
  get_pipeline_run run_id db = lookup run_id db.pipeline_runs

  module _ (single : F.Num → F.Num) (refuses : Statement → Bool) where
    abbrev pub staged_bar : Bar F → StagedBar
    staged_bar b = record {
      open_ = single b.open_;
      high = single b.high;
      low = single b.low;
      close = single b.close;
      volume = b.volume;
    }

    -- `_equity_bar_rows`
    abbrev pub equity_bar_rows : Text → Text → Dict BarKey (Bar F) → Dict StagedKey StagedBar
    equity_bar_rows source run_id [] = []
    equity_bar_rows source run_id ((key, b) ∷ bars) =
        (((run_id, source), key), staged_bar b) ∷ equity_bar_rows source run_id bars

    unfoldable pub bar_rows : EquityRun → Dict StagedKey StagedBar
    bar_rows r =
        equity_bar_rows (text "YAHOO") r.run_id r.yahoo_bars
        ++ equity_bar_rows (text "ALPACA") r.run_id r.alpaca_bars
        ++ equity_bar_rows (text "MASSIVE") r.run_id (rows_or_none r.massive_bars)

    -- A statement that the database may refuse, and that may violate a constraint.
    abbrev pub statement {ℓ} : {A : Type ℓ} → Statement → Option A → Result StorageError A
    statement s outcome = raise_if (refuses s) refused_statement >> constraint_checked outcome

    -- `executemany`, which the code leaves out when there are no rows
    abbrev pub insert_many {ℓ} :
        {K V : Type ℓ} ⦃e : Eq K⦄
        → Statement
        → List (K × V)
        → Dict K V
        → Result StorageError (Dict K V)
    insert_many s [] d = ok d
    insert_many s (row ∷ rows) d = statement s (insert_rows (row ∷ rows) d)

    -- The INSERTs of the transaction, and its COMMIT.
    unfoldable pub insert_all : EquityRun → Database → Result StorageError Database
    insert_all r db = do
      runs ← statement insert_run (insert_rows ((r.run_id, summary_of r) ∷ []) db.pipeline_runs)
      bars ← insert_many insert_bars (bar_rows r) db.equity_bars_staging
      results ←
          insert_many insert_results (reconciliation_rows r.run_id r.reconciliation)
            db.equity_reconciliation_results
      raise_if (any_of (is_orphan runs) r.exceptions) constraint_violated
      exceptions ← insert_many insert_exceptions (exception_rows r.exceptions) db.equity_exceptions
      raise_if (refuses commit) refused_statement
      ok (record {
        pipeline_runs = runs;
        equity_bars_staging = bars;
        equity_reconciliation_results = results;
        equity_exceptions = exceptions;
      })

    -- The end of the transaction: what it has done stands after a COMMIT, and nothing of it after a ROLLBACK.
    abbrev pub end_transaction :
        Database → Result StorageError Database → Result StorageError Bool × Database
    end_transaction db (ok db') = (ok true, db')
    end_transaction db (err e) = (err e, db)

    -- `persist_equity_run`
    unfoldable pub persist_equity_run : EquityRun → Database → Result StorageError Bool × Database
    persist_equity_run r db =
        if refuses begin_transaction || refuses select_run
        then (err refused_statement, db)
        else if is_some (lookup r.run_id db.pipeline_runs)
        then (ok false, db)
        else end_transaction db (insert_all r db)
