-- ===== src/Storage/DataLake/WriteOnce.antt =====
-- An archive stands as it was first written: what later calls of the data lake find.
use automated_reconciliation.Common.{
  ◌≡◌, refl, ap, ◌∙◌, Option, none, some, [], ◌∷◌, ◌++◌, Text, Dict, lookup, nat_eq, list_eq,
  beq_refl, Result, ok, bind-lift-eq-ok, arith,
}
use automated_reconciliation.Common.Float.{Float}
use automated_reconciliation.Storage.Tables.{lookup-append}
use automated_reconciliation.Scaling.Execution.{WriteOutcome, written, not_written, left_behind}
use automated_reconciliation.Storage.DataLake.{
  FilePath, LakeError, archive_path, write_parquet_once, write_once, validate_partition_value,
  Table, Lake, with_run_id, with_archives, write_dataframe,
}

-- Every file of the one table stands in the other.
abbrev pub Keeps {ℓ} : {V : Type ℓ} → Dict FilePath V → Dict FilePath V → Type ℓ
Keeps {V = V} d d' = (path : FilePath) (v : V) → lookup path d ≡ some v → lookup path d' ≡ some v

module _ {ℓ} {V : Type ℓ} where
  lookup-snoc :
      (path : FilePath) (v : V) (d : Dict FilePath V)
      → lookup path d ≡ none
      → lookup path (d ++ (path, v) ∷ []) ≡ some v
  lookup-snoc path v d new = lookup-append path d ((path, v) ∷ []) ∙ rw (new, beq_refl path) refl

  Keeps-snoc : (path : FilePath) (v : V) (d : Dict FilePath V) → Keeps d (d ++ (path, v) ∷ [])
  Keeps-snoc path v d other w there = lookup-append other d ((path, v) ∷ []) ∙ rw there refl

  -- Whatever the disk does, a write leaves every file that was there.
  pub write_parquet_once-Keeps :
      (disk : FilePath → WriteOutcome) (v : V) (path : FilePath) (d : Dict FilePath V)
      → Keeps d (write_parquet_once disk v path d).1
  unfolding write_parquet_once
  write_parquet_once-Keeps disk v path d = by_outcome (disk path) (lookup path d)
    where
      by_outcome : (w : WriteOutcome) (old : Option V) → Keeps d (write_once w path v old d).1
      by_outcome w (some old) other x there = there
      by_outcome written none other x there = Keeps-snoc path v d other x there
      by_outcome not_written none other x there = there
      by_outcome left_behind none other x there = Keeps-snoc path v d other x there

  write_parquet_once-eq-ok :
      (disk : FilePath → WriteOutcome) (v : V) (path : FilePath) (d d' : Dict FilePath V)
      → write_parquet_once disk v path d ≡ (ok tt, d')
      → lookup path d' ≡ some v
  unfolding write_parquet_once
  write_parquet_once-eq-ok disk v path d d' h = by_outcome (disk path) (lookup path d) refl h
    where
      by_outcome :
          (w : WriteOutcome) (old : Option V)
          → lookup path d ≡ old
          → write_once w path v old d ≡ (ok tt, d')
          → lookup path d' ≡ some v
      by_outcome w (some old) e h = absurd (ground (arith, h))
      by_outcome written none e h =
          let same : d ++ (path, v) ∷ [] ≡ d' = cc in rw (← same) (lookup-snoc path v d e)
      by_outcome not_written none e h = absurd (ground (arith, h))
      by_outcome left_behind none e h = absurd (ground (arith, h))

module _ (F : Float) where
  with_archives-eq-ok :
      (s s' : Lake F) (r : Result LakeError (Unit {0}) × Dict FilePath (Table F))
      → with_archives F s r ≡ (ok tt, s')
      → r ≡ (ok tt, s'.archives)
  with_archives-eq-ok s s' (outcome, files) h = ground (arith, h)

  module _ (disk : FilePath → WriteOutcome) where
    pub write_dataframe-eq-ok :
        (t : Table F) (source instrument_type run_id layer : Text) (path : FilePath) (s s' : Lake F)
        → archive_path layer source instrument_type run_id ≡ ok path
        → write_dataframe F disk t source instrument_type run_id layer s ≡ (ok tt, s')
        → (archived : Table F) × (with_run_id F t run_id ≡ ok archived)
          × (lookup path s'.archives ≡ some archived)
          × Keeps s.archives s'.archives
    unfolding write_dataframe
    write_dataframe-eq-ok t source instrument_type run_id layer path s s' at h =
        let (_, valid, h₁) = bind-lift-eq-ok (validate_partition_value run_id) _ s s' tt h in
        let (path', at', h₂) =
          bind-lift-eq-ok (archive_path layer source instrument_type run_id) _ s s' tt h₁ in
        let (archived, named, h₃) = bind-lift-eq-ok (with_run_id F t run_id) _ s s' tt h₂ in
        let same : path' ≡ path = cc in
        let wrote : write_parquet_once disk archived path s.archives ≡ (ok tt, s'.archives) =
          with_archives-eq-ok s s' (write_parquet_once disk archived path s.archives)
            (rw same at h₃) in
        (
          archived,
          named,
          write_parquet_once-eq-ok disk archived path s.archives s'.archives wrote,
          rw (ap (λ (x : Result LakeError (Unit {0}) × Dict FilePath (Table F)). x.1) wrote) at
              (write_parquet_once-Keeps disk archived path s.archives),
        )
