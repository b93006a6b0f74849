-- ===== src/Batch/Attempt/Quiet.antt =====
-- The steps of the body of `try` before `persist` touch neither the database nor the messages.
use automated_reconciliation.Common.{
  ℕ, ◌≡◌, refl, ◌∙◌, Bool, true, false, Option, none, some, List, [], ◌∷◌, Text, text, nat_eq,
  list_eq, Result, ok, err, Bool-cases, inl, inr, Action, bind, continue,
}
use automated_reconciliation.Common.Float.{Float}
use automated_reconciliation.Reconciliation.Validation.{Frame}
use automated_reconciliation.Storage.DataLake.{
  LakeError, Lake, read_dataframe, dataframe_archive_exists, archive_equity_source,
}
use automated_reconciliation.Batch.World.{Failure, sources, Ingestion, World, Surroundings, Library}
use automated_reconciliation.Batch.Attempt.{
  on_lake, all_archived, read_all, with_ingested, archive_all, provider_bars,
}

module _ (F : Float) (S : Type 0) (I : Ingestion F S) (L : Library F) (a : Surroundings F) where
  -- A step that touches neither the database nor the messages.
  abbrev pub Quiet {ℓ} : {A : Type ℓ} → World F S → Result Failure A × World F S → Type 0
  Quiet w (r, w') = (w'.database ≡ w.database) × (w'.posts ≡ w.posts)

  Quiet-bind :
      {A B : Type 0} (first : Action Failure (World F S) A)
      (next : A → Action Failure (World F S) B)
      → ((w : World F S) → Quiet w (first w))
      → ((x : A) (w : World F S) → Quiet w (next x w))
      → (w : World F S) → Quiet w (bind first next w)
  Quiet-bind {A = A} {B = B} first next h k w = by_first (first w) (h w)
    where
      by_first : (r : Result Failure A × World F S) → Quiet w r → Quiet w (continue next r)
      by_first (ok x, m) q = ((k x m).0 ∙ q.0, (k x m).1 ∙ q.1)
      by_first (err e, m) q = q

  pub Quiet-on_lake :
      {A : Type 0} (action : Action LakeError (Lake F) A) (w : World F S)
      → Quiet w (on_lake F S I L action w)
  Quiet-on_lake action w = (refl, refl)

  pub all_archived-Quiet :
      (run_id : Text) (from : List Text) (w : World F S)
      → Quiet w (all_archived F S I L run_id from w)
  all_archived-Quiet run_id [] w = (refl, refl)
  all_archived-Quiet run_id (source ∷ rest) w =
      Quiet-bind (on_lake F S I L (dataframe_archive_exists F source run_id (text "normalized"))) _
        (Quiet-on_lake (dataframe_archive_exists F source run_id (text "normalized")))
        (λ there w. elim (Bool-cases there) [
          | inl here ↦ rw here (all_archived-Quiet run_id rest w)
          | inr gone ↦ rw gone (refl, refl)
        ])
        w

  read_all-Quiet :
      (run_id : Text) (from : List Text) (w : World F S) → Quiet w (read_all F S I L run_id from w)
  read_all-Quiet run_id [] w = (refl, refl)
  read_all-Quiet run_id (source ∷ rest) w =
      Quiet-bind
        (on_lake F S I L (read_dataframe F L.restore_date source run_id (text "normalized"))) _
        (Quiet-on_lake (read_dataframe F L.restore_date source run_id (text "normalized")))
        (λ t.
          Quiet-bind (read_all F S I L run_id rest) _ (read_all-Quiet run_id rest)
            (λ others w. (refl, refl)))
        w

  archive_all-Quiet :
      (run_id : Text) (frames : List (Text × Frame F)) (w : World F S)
      → Quiet w (archive_all F S I L a run_id frames w)
  archive_all-Quiet run_id [] w = (refl, refl)
  archive_all-Quiet run_id ((source, f) ∷ rest) w =
      Quiet-bind
        (on_lake F S I L (
          archive_equity_source F a.disk L.restore_date L.coerce_date L.parse_date
            (record { frame = f; run_ids = none }) source run_id true))
        _
        (Quiet-on_lake (
          archive_equity_source F a.disk L.restore_date L.coerce_date L.parse_date
            (record { frame = f; run_ids = none }) source run_id true))
        (λ t.
          Quiet-bind (archive_all F S I L a run_id rest) _ (archive_all-Quiet run_id rest)
            (λ others w. (refl, refl)))
        w

  with_ingested-Quiet :
      (w : World F S) (r : Option (List (Text × Frame F)) × S) → Quiet w (with_ingested F S I L w r)
  with_ingested-Quiet w (none, s) = (refl, refl)
  with_ingested-Quiet w (some frames, s) = (refl, refl)

  pub provider_bars-Quiet :
      (complete : Bool) (run_id : Text) (symbols : List Text) (date : ℕ) (scaling : ℕ × ℕ)
      (w : World F S)
      → Quiet w (provider_bars F S I L a complete run_id symbols date scaling w)
  provider_bars-Quiet true run_id symbols date scaling w = read_all-Quiet run_id sources w
  provider_bars-Quiet false run_id symbols date (buckets, workers) w =
      Quiet-bind
        (λ v. with_ingested F S I L v (I.fetch run_id symbols date buckets workers v.ingested)) _
        (λ v. with_ingested-Quiet v (I.fetch run_id symbols date buckets workers v.ingested))
        (λ frames. archive_all-Quiet run_id frames) w
