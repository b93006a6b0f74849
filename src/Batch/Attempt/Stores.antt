-- ===== src/Batch/Attempt/Stores.antt =====
-- What the body of `try` in `main` does to the database: a run that it reports is stored, and when it raises nothing is.
use automated_reconciliation.Common.{
  ℕ, ◌≡◌, refl, Bool, true, false, not, some, List, [], ◌∷◌, map, Text, text, lookup, is_some,
  count_of, nat_eq, list_eq, Result, ok, err, Result-cases, Option-cases, inl, inr, Action, bind,
  lift, continue, raise_if, arith,
}
use automated_reconciliation.Common.Float.{Float}
use automated_reconciliation.Reconciliation.Validation.{Frame}
use automated_reconciliation.Reconciliation.Equities.Pairs.{
  PairRow, is_break, reconcile_equity_sources,
}
use automated_reconciliation.Reconciliation.Exceptions.{
  BreakRow, from_pair, create_equity_exceptions,
}
use automated_reconciliation.Storage.Runs.{
  StorageError, Database, PipelineRun, EquityRun, summary_of, get_pipeline_run, persist_equity_run,
}
use automated_reconciliation.Storage.Runs.Atomic.{IsKeyed, Effect, persist_equity_run-Effect}
use automated_reconciliation.Storage.Runs.Retries.{stored-with_run}
use automated_reconciliation.Storage.DataLake.{archive_reconciliation_results}
use automated_reconciliation.Batch.Notifications.{Summary, Post}
use automated_reconciliation.Batch.World.{
  no_database, comparison_failed, Failure, Ending, returned, completed, sources, Ingestion, World,
  Surroundings, Library,
}
use automated_reconciliation.Batch.Attempt.{
  run_status, break_count_of, failing, on_lake, all_archived, provider_bars, with_database,
  after_persist, run_of, persist, compare_and_store, compute, unless_stored, attempt,
}
use automated_reconciliation.Batch.Attempt.Quiet.{
  Quiet, Quiet-on_lake, all_archived-Quiet, provider_bars-Quiet,
}

abbrev pub summary_in : Ending → Summary
summary_in (returned s) = s
summary_in (completed s) = s

module _ (F : Float) where
  -- The run that a summary tells of is in the database.
  abbrev pub IsStored : Text → Text → ℕ → Database F → Type 0
  IsStored run_id status count db =
      (r : PipelineRun) × (get_pipeline_run F run_id db ≡ some r)
      × (r.status ≡ status)
      × (r.break_count ≡ count)

  -- The summary is one of a run.
  abbrev pub Describes : Library F → Text → List Text → ℕ → Summary → Type 0
  Describes L run_id symbols date s =
      (s.run_id ≡ run_id) × (s.symbols ≡ symbols) × (s.control_date ≡ L.isoformat date)

module _ (F : Float) (S : Type 0) (I : Ingestion F S) (L : Library F) (a : Surroundings F) where
  -- What a part of the body leaves, that started with a database and messages: the run of its summary in the database, or the database
  -- as it was.
  abbrev pub Ends :
      Text → List Text → ℕ → Database F → List Post → Result Failure Summary × World F S → Type 0
  Ends run_id symbols date db posts (ok s, w) =
      Describes F L run_id symbols date s
      × IsStored F run_id s.status s.break_count w.database
      × IsKeyed F w.database
      × (w.posts ≡ posts)
  Ends run_id symbols date db posts (err e, w) = (w.database ≡ db) × (w.posts ≡ posts)

  Ends-bind :
      {A : Type 0} (run_id : Text) (symbols : List Text) (date : ℕ)
      (first : Action Failure (World F S) A) (next : A → Action Failure (World F S) Summary)
      → ((w : World F S) → Quiet F S I L a w (first w))
      → ((x : A) (w : World F S)
          → IsKeyed F w.database
          → Ends run_id symbols date w.database w.posts (next x w))
      → (w : World F S) → IsKeyed F w.database
      → Ends run_id symbols date w.database w.posts (bind first next w)
  Ends-bind {A = A} run_id symbols date first next h k w keyed = by_first (first w) (h w)
    where
      by_first :
          (r : Result Failure A × World F S)
          → Quiet F S I L a w r
          → Ends run_id symbols date w.database w.posts (continue next r)
      by_first (ok x, m) q = rw (← q.0, ← q.1) (k x m (rw q.0 keyed))
      by_first (err e, m) q = q

  count-from_pair :
      (rows : List (PairRow F))
      → count_of (λ (b : BreakRow F). is_break b.row.status) (map (from_pair F) rows)
        ≡ break_count_of F rows
  count-from_pair [] = refl
  count-from_pair (r ∷ rows) = ground (arith, count-from_pair rows)

  -- What `persist` leaves.
  abbrev Persists : Text → ℕ → Database F → List Post → Result Failure Bool × World F S → Type 0
  Persists run_id count db posts (ok true, w) =
      IsStored F run_id (run_status count) count w.database
      × IsKeyed F w.database
      × (w.posts ≡ posts)
  Persists run_id count db posts (ok false, w) =
      (is_some (lookup run_id w.database.pipeline_runs) ≡ true)
      × (w.database ≡ db)
      × IsKeyed F w.database
      × (w.posts ≡ posts)
  Persists run_id count db posts (err e, w) = (w.database ≡ db) × (w.posts ≡ posts)

  with_database-Persists :
      (rows : List (PairRow F)) (r : EquityRun F) (w : World F S)
      (x : Result StorageError Bool × Database F)
      → r.status ≡ run_status (break_count_of F rows)
      → r.reconciliation ≡ map (from_pair F) rows
      → IsKeyed F w.database
      → Effect F L.single a.refuses r w.database x
      → Persists r.run_id
          (break_count_of F rows)
          w.database
          w.posts
          (with_database F S I L a w (break_count_of F rows) x)
  unfolding summary_of
  with_database-Persists rows r w (ok true, db) status same keyed (new, e, k) = (
    (
      summary_of F r,
      stored-with_run F L.single a.refuses r w.database db new e,
      status,
      rw same (count-from_pair rows),
    ),
    k,
    refl,
  )
  with_database-Persists rows r w (ok false, db) status same keyed (old, e) =
      (rw e old, e, rw e keyed, refl)
  with_database-Persists rows r w (err e, db) status same keyed still = (still, refl)

  persist-Persists :
      (run_id : Text) (frames : List (Text × Frame F)) (rows : List (PairRow F)) (w : World F S)
      → IsKeyed F w.database
      → Persists run_id
          (break_count_of F rows)
          w.database
          w.posts
          (persist F S I L a run_id frames rows w)
  persist-Persists run_id frames rows w keyed =
      elim (Result-cases
        (create_equity_exceptions F L.show_date L.uuid5 a.clock run_id (map (from_pair F) rows))) [
          | inr (e, failed) ↦ rw failed (refl, refl)
          | inl (exceptions, opened) ↦ elim (Option-cases (lookup (text "YAHOO") frames)) [
            | inl none_ ↦ rw (opened, none_) (refl, refl)
            | inr (yahoo, has_yahoo) ↦ elim (Option-cases (lookup (text "ALPACA") frames)) [
              | inl none_ ↦ rw (opened, has_yahoo, none_) (refl, refl)
              | inr (alpaca, has_alpaca) ↦ elim (Option-cases (lookup (text "MASSIVE") frames)) [
                | inl none_ ↦ rw (opened, has_yahoo, has_alpaca, none_) (refl, refl)
                | inr (massive, has_massive) ↦
                    let r : EquityRun F =
                      run_of F S I L a run_id (yahoo, alpaca, massive) rows exceptions in
                    rw (opened, has_yahoo, has_alpaca, has_massive)
                      (with_database-Persists rows r w
                        (persist_equity_run F L.single a.refuses r w.database) refl refl keyed
                        (persist_equity_run-Effect F L.single a.refuses r w.database keyed))
              ]
            ]
          ]
        ]

  after_persist-Ends :
      (persisted : Bool) (run_id : Text) (symbols : List Text) (date count : ℕ) (w : World F S)
      (db : Database F) (posts : List Post)
      → Persists run_id count db posts (ok persisted, w)
      → Ends run_id symbols date db posts
          (after_persist F S I L a persisted run_id symbols date count w, w)
  after_persist-Ends true run_id symbols date count w db posts h =
      ((refl, refl, refl), h.0, h.1, h.2)
  after_persist-Ends false run_id symbols date count w db posts (old, still, keyed, same) =
      elim (Option-cases (lookup run_id w.database.pipeline_runs)) [
        | inl none_ ↦ rw none_ (still, same)
        | inr (r, found) ↦ rw found ((refl, refl, refl), (r, found, refl, refl), keyed, same)
      ]

  -- The last part of the body.
  persisted-Ends :
      (run_id : Text) (symbols : List Text) (date count : ℕ) (db : Database F) (posts : List Post)
      (r : Result Failure Bool × World F S)
      → Persists run_id count db posts r
      → Ends run_id symbols date db posts (
          continue
            (λ persisted w. (after_persist F S I L a persisted run_id symbols date count w, w))
            r)
  persisted-Ends run_id symbols date count db posts (ok persisted, w) h =
      after_persist-Ends persisted run_id symbols date count w db posts h
  persisted-Ends run_id symbols date count db posts (err e, w) h = h

  compare_and_store-Ends :
      (run_id : Text) (symbols : List Text) (date : ℕ) (frames : List (Text × Frame F))
      (w : World F S)
      → IsKeyed F w.database
      → Ends run_id symbols date w.database w.posts
          (compare_and_store F S I L a run_id symbols date frames w)
  unfolding compare_and_store
  compare_and_store-Ends run_id symbols date frames w keyed =
      Ends-bind run_id symbols date
        (lift (
          failing F comparison_failed 0
            (reconcile_equity_sources F L.parse_date L.merge L.defaults frames)))
        _ (λ v. (refl, refl))
        (λ rows.
          Ends-bind run_id symbols date
            (on_lake F S I L (archive_reconciliation_results F a.disk rows run_id true)) _
            (Quiet-on_lake F S I L a (archive_reconciliation_results F a.disk rows run_id true))
            (λ _ v valid.
              persisted-Ends run_id symbols date (break_count_of F rows) v.database v.posts
                (persist F S I L a run_id frames rows v)
                (persist-Persists run_id frames rows v valid)))
        w keyed

  compute-Ends :
      (run_id : Text) (symbols : List Text) (date : ℕ) (scaling : ℕ × ℕ) (w : World F S)
      → IsKeyed F w.database
      → Ends run_id symbols date w.database w.posts
          (compute F S I L a run_id symbols date scaling w)
  unfolding compute
  compute-Ends run_id symbols date scaling w keyed =
      Ends-bind run_id symbols date (all_archived F S I L run_id sources) _
        (all_archived-Quiet F S I L a run_id sources)
        (λ complete.
          Ends-bind run_id symbols date
            (provider_bars F S I L a complete run_id symbols date scaling) _
            (provider_bars-Quiet F S I L a complete run_id symbols date scaling)
            (λ frames. compare_and_store-Ends run_id symbols date frames))
        w keyed

  -- What the body leaves.
  abbrev pub Finishes :
      Text → List Text → ℕ → Database F → List Post → Result Failure Ending × World F S → Type 0
  Finishes run_id symbols date db posts (ok e, w) =
      Describes F L run_id symbols date (summary_in e)
      × IsStored F run_id (summary_in e).status (summary_in e).break_count w.database
      × IsKeyed F w.database
      × (w.posts ≡ posts)
  Finishes run_id symbols date db posts (err e, w) = (w.database ≡ db) × (w.posts ≡ posts)

  -- Whatever the ingestion, the disk, the database and the other parts do: when the body of `try` ends, its run is
  -- stored with the status and the number of breaks that it reports; when it raises, the tables of the database are as they were.
  pub attempt-Finishes :
      (run_id : Text) (symbols : List Text) (date : ℕ) (scaling : ℕ × ℕ) (w : World F S)
      → IsKeyed F w.database
      → Finishes run_id symbols date w.database w.posts
          (attempt F S I L a run_id symbols date scaling w)
  unfolding attempt
  attempt-Finishes run_id symbols date scaling w keyed =
      by_database a.initializes
        (λ v.
          unless_stored F S I L a (get_pipeline_run F run_id v.database) run_id symbols date scaling
            v)
        (elim (Option-cases (get_pipeline_run F run_id w.database)) [
          | inr (r, found) ↦ rw found ((refl, refl, refl), (r, found, refl, refl), keyed, refl)
          | inl new ↦ rw new (
              finish (compute F S I L a run_id symbols date scaling w)
                (compute-Ends run_id symbols date scaling w keyed))
        ])
    where
      finish :
          (r : Result Failure Summary × World F S)
          → Ends run_id symbols date w.database w.posts r
          → Finishes run_id symbols date w.database w.posts
              (continue (λ s. lift (ok (completed s))) r)
      finish (ok s, v) h = h
      finish (err e, v) h = h

      by_database :
          (open_ : Bool) (next : Action Failure (World F S) Ending)
          → Finishes run_id symbols date w.database w.posts (next w)
          → Finishes run_id symbols date w.database w.posts
              (bind (lift (raise_if (not open_) (no_database, 0))) (λ _. next) w)
      by_database true next h = h
      by_database false next h = (refl, refl)
