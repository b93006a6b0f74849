-- ===== src/Batch/Daily/Failures.antt =====
-- What a call of the daily command leaves that raises, and what it posts.
use automated_reconciliation.Common.{
  ℕ, ◌≡◌, refl, sym, ap, subst, ◌∙◌, Bool, true, false, Option, none, some, List, [], ◌∷◌, ◌++◌,
  Text, text, nat_eq, list_eq, Result, ok, err, Bool-cases, inl, inr,
}
use automated_reconciliation.Common.Float.{Float}
use automated_reconciliation.Storage.Runs.Atomic.{IsKeyed}
use automated_reconciliation.Batch.Notifications.{
  Summary, Post, delivery_failed, post_of, is_notified, send_run_notification,
}
use automated_reconciliation.Batch.World.{
  BatchError, notification_failed, Failure, Ending, returned, completed, Ingestion, World,
  Surroundings, Library,
}
use automated_reconciliation.Batch.Attempt.{attempt}
use automated_reconciliation.Batch.Attempt.Stores.{Finishes, attempt-Finishes}
use automated_reconciliation.Batch.Daily.{failed_summary, with_posts, after_attempt, main}
use automated_reconciliation.Batch.Daily.Reruns.{
  IsConfigured, main-configured, main-stored, summary_lem,
}

module _ (F : Float) (S : Type 0) (L : Library F) where
  abbrev IsReported : World F S → Result BatchError Summary × World F S → Type 0
  IsReported w (ok s, w') = Unit
  IsReported w (err e, w') =
      (w'.database ≡ w.database)
      × ((post : Post) × (post.status ≡ text "FAILED")
          × (post.delivered ≡ true)
          × (w'.posts ≡ w.posts ++ post ∷ []))

  after_attempt-IsReported :
      (I : Ingestion F S) (a : Surroundings F) (run_id : Text) (selected : List Text) (date : ℕ)
      (w : World F S) (r : Result Failure Ending × World F S)
      → a.webhook ≡ some true
      → Finishes F S I L a run_id selected date w.database w.posts r
      → IsReported w (after_attempt F S I L a run_id selected date r)
  unfolding send_run_notification
  after_attempt-IsReported I a run_id selected date w (ok (returned s), v) h k = tt
  after_attempt-IsReported I a run_id selected date w (ok (completed s), v) h k = sent a.webhook h
    where
      sent :
          (x : Option Bool)
          → x ≡ some true
          → IsReported w (with_posts F S I L a v (λ _. ok s) (send_run_notification x s v.posts))
      sent none e = cc
      sent (some false) e = cc
      sent (some true) e = elim (Bool-cases (is_notified s.status)) [
        | inl told ↦ rw told tt
        | inr untold ↦ rw untold tt
      ]
  after_attempt-IsReported I a run_id selected date w (err (e, count), v) h k = sent a.webhook h
    where
      failed : Summary
      failed = failed_summary F S I L a run_id selected date count

      sent :
          (x : Option Bool)
          → x ≡ some true
          → IsReported w (
              with_posts F S I L a {A = Summary} v
                (λ _. err e)
                (send_run_notification x failed v.posts))
      sent none e = cc
      sent (some false) e = cc
      sent (some true) e = (k.0, (post_of failed true, refl, refl, rw k.1 refl))

  -- If `main` raises, with a valid configuration and a webhook that answers, then the four tables of the database that
  -- `persist_equity_run` writes are as they were before the call, and the one message posted says FAILED. The tables of the ingestion
  -- are not among them.
  pub main-raises :
      (I : Ingestion F S) (a : Surroundings F) (symbols : Option (List Text)) (date : ℕ)
      (selected : List Text) (scaling : ℕ × ℕ) (run_id : Text) (e : BatchError) (w w' : World F S)
      → IsKeyed F w.database
      → IsConfigured F S L a symbols date selected scaling run_id
      → a.webhook ≡ some true
      → main F S I L a symbols date w ≡ (err e, w')
      → (w'.database ≡ w.database)
        × ((post : Post) × (post.status ≡ text "FAILED")
            × (post.delivered ≡ true)
            × (w'.posts ≡ w.posts ++ post ∷ []))
  main-raises I a symbols date selected scaling run_id e w w' keyed c answers run =
      subst (λ (x : Result BatchError Summary × World F S). IsReported w x)
        (sym (main-configured F S L I a symbols date selected scaling run_id w c) ∙ run)
        (after_attempt-IsReported I a run_id selected date w
          (attempt F S I L a run_id selected date scaling w) answers
          (attempt-Finishes F S I L a run_id selected date scaling w keyed))

  -- If the body ends with a new summary that is to be notified, and the webhook does not answer, then `main` raises with the
  -- run stored; and every later call for it returns its summary and posts nothing, whether or not the webhook answers: nobody is told.
  pub main-unnotified :
      (I I' : Ingestion F S) (a a' : Surroundings F) (symbols symbols' : Option (List Text))
      (date : ℕ) (selected : List Text) (scaling scaling' : ℕ × ℕ) (run_id : Text) (s : Summary)
      (w v : World F S)
      → IsKeyed F w.database
      → IsConfigured F S L a symbols date selected scaling run_id
      → IsConfigured F S L a' symbols' date selected scaling' run_id
      → attempt F S I L a run_id selected date scaling w ≡ (ok (completed s), v)
      → is_notified s.status ≡ true
      → a.webhook ≡ some false
      → a'.initializes ≡ true
      → (w' : World F S) × (main F S I L a symbols date w
          ≡ (err (notification_failed delivery_failed), w'))
        × (main F S I' L a' symbols' date w'
            ≡ (ok (record s { already_completed = some true }), w'))
  unfolding send_run_notification
  main-unnotified I I' a a' symbols symbols' date selected scaling scaling' run_id s w v keyed c c'
        ends told silent open_ =
      let left : World F S = record v { posts = v.posts ++ post_of s false ∷ [] } in
      let (describes, (r, found, status, count), _, _) =
        subst
          (λ (x : Result Failure Ending × World F S).
            Finishes F S I L a run_id selected date w.database w.posts x)
          ends (attempt-Finishes F S I L a run_id selected date scaling w keyed) in
      (
        left,
        main-configured F S L I a symbols date selected scaling run_id w c
            ∙ ap (after_attempt F S I L a run_id selected date) ends
            ∙ ap (with_posts F S I L a v (λ _. ok s)) (sent a.webhook silent),
        main-stored F S L I' a' symbols' date selected scaling' run_id left r c' open_ found
            ∙ ap (λ (x : Summary). (ok x, left))
                (summary_lem F S L I' a' run_id selected date s r describes status count),
      )
    where
      sent :
          (x : Option Bool)
          → x ≡ some false
          → send_run_notification x s v.posts
            ≡ (err delivery_failed, v.posts ++ post_of s false ∷ [])
      sent none e = cc
      sent (some true) e = cc
      sent (some false) e = rw told refl
