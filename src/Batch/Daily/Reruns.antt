-- ===== src/Batch/Daily/Reruns.antt =====
-- What a repeated call of the daily command does.
use automated_reconciliation.Common.{
  ℕ, ◌≡◌, refl, sym, ap, subst, ◌∙◌, Bool, true, false, not, Option, some, List, Text, nat_eq,
  list_eq, Result, ok, err, bind, lift, raise_if,
}
use automated_reconciliation.Common.Float.{Float}
use automated_reconciliation.Storage.Runs.{Database, PipelineRun, get_pipeline_run}
use automated_reconciliation.Storage.Runs.Atomic.{IsKeyed}
use automated_reconciliation.Batch.Symbols.{
  ConfigurationError, get_reconciliation_symbols, get_scaling_configuration, build_run_id,
}
use automated_reconciliation.Batch.Notifications.{
  Summary, Post, NotificationError, send_run_notification,
}
use automated_reconciliation.Batch.World.{
  BatchError, no_database, Failure, Ending, returned, completed, Ingestion, World, Surroundings,
  Library,
}
use automated_reconciliation.Batch.Attempt.{attempt, summary_with, unless_stored}
use automated_reconciliation.Batch.Attempt.Stores.{IsStored, Describes, Finishes, attempt-Finishes}
use automated_reconciliation.Batch.Daily.{
  failed_summary, with_posts, after_attempt, configured, run_with, with_symbols, main,
}

module _ (F : Float) (S : Type 0) (L : Library F) where
  -- The call has a valid configuration: these symbols, numbers and this identifier.
  abbrev pub IsConfigured :
      Surroundings F → Option (List Text) → ℕ → List Text → ℕ × ℕ → Text → Type 0
  IsConfigured a symbols date selected scaling run_id =
      (get_reconciliation_symbols symbols a.symbols_env ≡ ok selected)
      × (get_scaling_configuration L.parse_integer a.buckets_env a.workers_env ≡ ok scaling)
      × (build_run_id L.uuid5 L.isoformat selected date scaling.0 ≡ ok run_id)

  configured_lem :
      (I : Ingestion F S) (a : Surroundings F) (selected : List Text) (date : ℕ) (scaling : ℕ × ℕ)
      (run_id : Text)
      → get_scaling_configuration L.parse_integer a.buckets_env a.workers_env ≡ ok scaling
      → build_run_id L.uuid5 L.isoformat selected date scaling.0 ≡ ok run_id
      → configured F S I L a selected date ≡ ok (scaling, run_id)
  configured_lem I a selected date scaling run_id q r = rw (q, r) refl

  pub main-configured :
      (I : Ingestion F S) (a : Surroundings F) (symbols : Option (List Text)) (date : ℕ)
      (selected : List Text) (scaling : ℕ × ℕ) (run_id : Text) (w : World F S)
      → IsConfigured a symbols date selected scaling run_id
      → main F S I L a symbols date w
        ≡ after_attempt F S I L a run_id selected date
            (attempt F S I L a run_id selected date scaling w)
  unfolding main
  main-configured I a symbols date selected scaling run_id w (p, q, r) =
      ap (λ (x : Result ConfigurationError (List Text)). with_symbols F S I L a date x w) p
      ∙ ap
          (λ (x : Result ConfigurationError ((ℕ × ℕ) × Text)). run_with F S I L a selected date x w)
          (configured_lem I a selected date scaling run_id q r)

  -- A call for a run that is stored returns what the database says of it, and changes nothing.
  pub main-stored :
      (I : Ingestion F S) (a : Surroundings F) (symbols : Option (List Text)) (date : ℕ)
      (selected : List Text) (scaling : ℕ × ℕ) (run_id : Text) (w : World F S) (r : PipelineRun)
      → IsConfigured a symbols date selected scaling run_id
      → a.initializes ≡ true
      → get_pipeline_run F run_id w.database ≡ some r
      → main F S I L a symbols date w
        ≡ (ok (summary_with F S I L a run_id selected date r.status r.break_count true), w)
  unfolding attempt
  main-stored I a symbols date selected scaling run_id w r c open_ found =
      main-configured I a symbols date selected scaling run_id w c
      ∙ ap (after_attempt F S I L a run_id selected date) (
          opened a.initializes open_
          ∙ ap
              (λ (x : Option PipelineRun). unless_stored F S I L a x run_id selected date scaling w)
              found)
    where
      opened :
          (b : Bool)
          → b ≡ true
          → bind
              (lift (raise_if (not b) (no_database, 0)))
              (λ _ (v : World F S).
                unless_stored F S I L a
                  (get_pipeline_run F run_id v.database)
                  run_id
                  selected
                  date
                  scaling
                  v)
              w
            ≡ unless_stored F S I L a
                (get_pipeline_run F run_id w.database)
                run_id
                selected
                date
                scaling
                w
      opened true h = refl
      opened false h = cc

  -- A stored run that was told of in a summary.
  abbrev IsTold : Text → List Text → ℕ → Result BatchError Summary × World F S → Type 0
  IsTold run_id symbols date (ok s, w) =
      Describes F L run_id symbols date s × IsStored F run_id s.status s.break_count w.database
  IsTold run_id symbols date (err e, w) = Unit

  after_attempt-IsTold :
      (I : Ingestion F S) (a : Surroundings F) (run_id : Text) (selected : List Text) (date : ℕ)
      (db : Database F) (posts : List Post) (r : Result Failure Ending × World F S)
      → Finishes F S I L a run_id selected date db posts r
      → IsTold run_id selected date (after_attempt F S I L a run_id selected date r)
  after_attempt-IsTold I a run_id selected date db posts (ok (returned s), w) h = (h.0, h.1)
  after_attempt-IsTold I a run_id selected date db posts (ok (completed s), w) h =
      by_post (send_run_notification a.webhook s w.posts)
    where
      by_post :
          (x : Result NotificationError (Unit {0}) × List Post)
          → IsTold run_id selected date (with_posts F S I L a w (λ _. ok s) x)
      by_post (ok _, posts) = (h.0, h.1)
      by_post (err e, posts) = tt
  after_attempt-IsTold I a run_id selected date db posts (err (e, count), w) h = by_post (
      send_run_notification a.webhook (failed_summary F S I L a run_id selected date count) w.posts)
    where
      by_post :
          (x : Result NotificationError (Unit {0}) × List Post)
          → IsTold run_id selected date (with_posts F S I L a {A = Summary} w (λ _. err e) x)
      by_post (ok _, posts) = tt
      by_post (err e, posts) = tt

  pub summary_lem :
      (I : Ingestion F S) (a : Surroundings F) (run_id : Text) (selected : List Text) (date : ℕ)
      (s : Summary) (r : PipelineRun)
      → Describes F L run_id selected date s
      → r.status ≡ s.status
      → r.break_count ≡ s.break_count
      → summary_with F S I L a run_id selected date r.status r.break_count true
        ≡ record s { already_completed = some true }
  summary_lem I a run_id selected date s r (p, q, d) status count =
      rw (status, count, ← p, ← q, ← d) refl

  -- Once `main` has returned a summary, every later call for the same symbols and date, with the same identifier, returns that
  -- summary, marked as completed before, and changes nothing: no archive, no row, no fetch and no message. What the ingestion, the disk, the
  -- webhook and the rest of the surroundings do then makes no difference, if the database can be opened.
  pub main-again :
      (I I' : Ingestion F S) (a a' : Surroundings F) (symbols symbols' : Option (List Text))
      (date : ℕ) (selected : List Text) (scaling scaling' : ℕ × ℕ) (run_id : Text) (s : Summary)
      (w w' : World F S)
      → IsKeyed F w.database
      → IsConfigured a symbols date selected scaling run_id
      → IsConfigured a' symbols' date selected scaling' run_id
      → main F S I L a symbols date w ≡ (ok s, w')
      → a'.initializes ≡ true
      → main F S I' L a' symbols' date w' ≡ (ok (record s { already_completed = some true }), w')
  main-again I I' a a' symbols symbols' date selected scaling scaling' run_id s w w' keyed c c' run
        open_ =
      let first = sym (main-configured I a symbols date selected scaling run_id w c) ∙ run in
      let told : IsTold run_id selected date (ok s, w') =
        subst (λ (x : Result BatchError Summary × World F S). IsTold run_id selected date x) first
          (after_attempt-IsTold I a run_id selected date w.database w.posts
            (attempt F S I L a run_id selected date scaling w)
            (attempt-Finishes F S I L a run_id selected date scaling w keyed)) in
      let (r, found, status, count) = told.1 in
      main-stored I' a' symbols' date selected scaling' run_id w' r c' open_ found
      ∙ ap (λ (x : Summary). (ok x, w'))
          (summary_lem I' a' run_id selected date s r told.0 status count)
