-- ===== src/Scaling/Execution/Checkpoints.antt =====
-- What later attempts at a partition find: an archive is written once, a fetch is not repeated, and a success is final.
use automated_reconciliation.Common.{
  ℕ, suc, ◌≡◌, ◌≤◌, ◌+◌, refl, sym, ap, ◌∙◌, List, [], ◌∷◌, map, map_option, Bool, true, false,
  Option, none, some, Text, any_of, Dict, nat_eq, list_eq, pair_eq, Result, ok, err, raise_if,
  >>=-eq-ok, arith,
}
use automated_reconciliation.Common.Float.{Float}
use automated_reconciliation.Reconciliation.Validation.{
  BarKey, RawBar, Bar, Frame, ValidationError, required_columns, is_missing, validate_equity_bars,
}
use automated_reconciliation.Reconciliation.Validation.Dates.{
  read_row, validate_equity_bars-read_row,
}
use automated_reconciliation.Scaling.Execution.{
  read_partition, WriteOutcome, written, not_written, left_behind, ExecutionError, columns_missing,
  frame_checked, Archive, Attempt, PartitionOutcome, archived, write_partition_once,
  canonical_from_archive, normalize_equity_dataframe, canonical_of, store_raw, obtain_raw,
  after_write, after_canonical, after_raw, execute_from, execute_partition,
}

frame_checked-eq-ok {ℓ} :
    {A : Type ℓ} (r : Result ValidationError A) {a : A} → frame_checked r ≡ ok a → r ≡ ok a
frame_checked-eq-ok (ok b) h = cc
frame_checked-eq-ok (err e) h = cc

module _ (F : Float) (coerce_date : Text → Option Text) (parse_date : Text → Option ℕ)
    (read_date : Text → Text) where
  abbrev pub attempt : Attempt F → Archive F → PartitionOutcome F × Archive F
  attempt = execute_partition F coerce_date parse_date read_date

  abbrev pub IsValidFrame : Frame F → Type 0
  IsValidFrame c = (bars : Dict BarKey (Bar F)) × (validate_equity_bars F parse_date c ≡ ok bars)

  normalize-columns :
      (raw n : Frame F)
      → normalize_equity_dataframe F coerce_date parse_date raw ≡ ok n
      → n.columns ≡ required_columns
  unfolding normalize_equity_dataframe
  normalize-columns raw n h =
      let (_, _, last) =
        >>=-eq-ok (raise_if (any_of (is_missing raw.columns) required_columns) columns_missing) _
          h in
      cc

  canonical_of-eq-ok :
      (raw c : Frame F)
      → canonical_of F coerce_date parse_date raw ≡ ok c
      → (c.columns ≡ required_columns) × IsValidFrame c
  unfolding canonical_of normalize_equity_dataframe
  canonical_of-eq-ok raw c h =
      let (n, p, h₁) = >>=-eq-ok (normalize_equity_dataframe F coerce_date parse_date raw) _ h in
      let (bars, q, last) = >>=-eq-ok (frame_checked (validate_equity_bars F parse_date n)) _ h₁ in
      let same : n ≡ c = cc in
      rw (← same) (
        normalize-columns raw n p,
        (bars, frame_checked-eq-ok (validate_equity_bars F parse_date n) q),
      )

  -- A date as it is read from a file parses as the date that was written, and stays the same when it is written and read again.
  pub record ReadsDates : Type 0 where
    pub parses : (date : Text) → parse_date (read_date date) ≡ parse_date date
    pub settles : (date : Text) → read_date (read_date date) ≡ read_date date

  -- A frame with its dates as they are read from a file.
  abbrev pub reread : Frame F → Frame F
  reread = read_partition F read_date

  -- A frame that an attempt returns is valid, and reading the normalized archive gives it, with its dates as they are read; that is
  -- valid, too.
  abbrev pub IsGood : Frame F → Archive F → Type 0
  IsGood c s =
      (file : Frame F) × (s.normalized ≡ some file)
      × (canonical_from_archive F (reread file) ≡ reread c)
      × IsValidFrame c
      × IsValidFrame (reread c)

  abbrev IsGoodOutcome : PartitionOutcome F × Archive F → Type 0
  IsGoodOutcome (o, s) = (c : Frame F) → o.frame ≡ some c → IsGood c s

  reread-IsValidFrame : ReadsDates → (c : Frame F) → IsValidFrame c → IsValidFrame (reread c)
  reread-IsValidFrame reads c (bars, valid) =
      (_, validate_equity_bars-read_row F parse_date read_date c bars reads.parses valid)

  rows_settle :
      ReadsDates
      → (rows : List (RawBar F))
      → map (read_row F parse_date read_date) (map (read_row F parse_date read_date) rows)
        ≡ map (read_row F parse_date read_date) rows
  rows_settle reads [] = refl
  rows_settle reads (r ∷ rows) = rw (settle r.trade_date, rows_settle reads rows) refl
    where
      settle :
          (o : Option Text) → map_option read_date (map_option read_date o) ≡ map_option read_date o
      settle none = refl
      settle (some date) = rw (reads.settles date) refl

  after_write-IsGood :
      (w : WriteOutcome) (canonical : Frame F) (reused : Bool) (s : Archive F)
      → canonical.columns ≡ required_columns
      → IsValidFrame canonical
      → ReadsDates
      → IsGoodOutcome (
          after_write F coerce_date parse_date canonical reused s
            (write_partition_once F w none canonical))
  after_write-IsGood written canonical reused s columns valid reads c e =
      let same : canonical ≡ c = cc in
      rw (← same) (
        archived F canonical,
        refl,
        rw (← columns) refl,
        valid,
        reread-IsValidFrame reads canonical valid,
      )
  after_write-IsGood not_written canonical reused s columns valid reads c e = cc
  after_write-IsGood left_behind canonical reused s columns valid reads c e = cc

  after_canonical-IsGood :
      (w : WriteOutcome) (reused : Bool) (s : Archive F) (raw : Frame F)
      (r : Result ExecutionError (Frame F))
      → canonical_of F coerce_date parse_date raw ≡ r
      → s.normalized ≡ none
      → ReadsDates
      → IsGoodOutcome (after_canonical F coerce_date parse_date w reused s r)
  after_canonical-IsGood w reused s raw (err x) h new reads = λ c e. cc
  after_canonical-IsGood w reused s raw (ok canonical) h new reads =
      let (columns, valid) = canonical_of-eq-ok raw canonical h in
      rw new (after_write-IsGood w canonical reused s columns valid reads)

  after_raw-IsGood :
      (w : WriteOutcome) (r : Result ExecutionError (Frame F × Bool) × Archive F)
      → r.1.normalized ≡ none
      → ReadsDates
      → IsGoodOutcome (after_raw F coerce_date parse_date w r)
  after_raw-IsGood w (err x, s) new reads = λ c e. cc
  after_raw-IsGood w (ok (raw, reused), s) new reads =
      after_canonical-IsGood w reused s raw (canonical_of F coerce_date parse_date raw) refl new
        reads

  store_raw-normalized :
      (w : WriteOutcome) (f : Option (Frame F)) (s : Archive F)
      → (store_raw F coerce_date parse_date w f s).1.normalized ≡ s.normalized
  store_raw-normalized w none s = refl
  store_raw-normalized w (some f) s = refl

  obtain_raw-normalized :
      (a : Attempt F) (raw : Option (Frame F)) (s : Archive F)
      → (obtain_raw F coerce_date parse_date read_date a raw s).1.normalized ≡ s.normalized
  obtain_raw-normalized a (some f) s = refl
  obtain_raw-normalized a none s =
      store_raw-normalized a.write_raw a.fetched (record s { fetches = suc s.fetches })

  -- What is read from the normalized archive is valid.
  abbrev pub IsSound : Archive F → Type 0
  IsSound s =
      (file : Frame F)
      → s.normalized ≡ some file
      → IsValidFrame (canonical_from_archive F (reread file))

  execute_from-IsGood :
      (a : Attempt F) (s : Archive F) (file : Option (Frame F))
      → s.normalized ≡ file
      → IsSound s
      → ReadsDates
      → IsGoodOutcome (execute_from F coerce_date parse_date read_date a file s)
  execute_from-IsGood a s none new sound reads =
      after_raw-IsGood a.write_normalized (obtain_raw F coerce_date parse_date read_date a s.raw s)
        (obtain_raw-normalized a s.raw s ∙ new) reads
  execute_from-IsGood a s (some file) old sound reads = λ c e.
      let same : canonical_from_archive F (reread file) ≡ c = cc in
      let again : reread (canonical_from_archive F (reread file))
          ≡ canonical_from_archive F (reread file) =
        ap (λ (rows : List (RawBar F)). record (canonical_from_archive F file) { rows = rows })
          (rows_settle reads file.rows) in
      rw (← same) (file, old, sym again, sound file old, rw again (sound file old))

  -- If the normalized archive of a partition, where there is one, is read as a valid frame, then the frame that an attempt
  -- returns is valid, whatever the adapter and the disk did; and it is what is read from the normalized archive afterwards, with
  -- its dates as they are read, which is valid as well. A date that is read has to parse as the one written, and to stay the same
  -- when it is read again.
  pub execute_partition-IsGood :
      (a : Attempt F) (s : Archive F) (c : Frame F)
      → ReadsDates
      → IsSound s
      → (attempt a s).0.frame ≡ some c
      → IsGood c (attempt a s).1
  unfolding execute_partition
  execute_partition-IsGood a s c reads sound e =
      execute_from-IsGood a s s.normalized refl sound reads c e

  -- Once an attempt has returned a frame, every later attempt returns that frame from the archive, with its dates as they are read
  -- from a file, asks the adapter for nothing and writes nothing, whatever the adapter and the disk would do. The normalized archive,
  -- if there was one before, has to be read as a valid frame; and a date that is read, to parse as the one written and to stay the
  -- same when it is read again.
  pub execute_partition-again :
      (a a' : Attempt F) (s : Archive F) (c : Frame F)
      → ReadsDates
      → IsSound s
      → (attempt a s).0.frame ≡ some c
      → attempt a' (attempt a s).1 ≡ (
        record {
          frame = some (reread c);
          reused_archive = true;
          error = none;
          has_raw_path = false;
        },
        (attempt a s).1,
      )
  unfolding execute_partition
  execute_partition-again a a' s c reads sound e =
      let (file, stored, same, _, _) = execute_partition-IsGood a s c reads sound e in
      rw (stored, same) refl

  -- The raw archive and the count of the fetches.
  abbrev pub fetched_of : Archive F → Option (Frame F) × ℕ
  fetched_of s = (s.raw, s.fetches)

  after_write-fetched :
      (canonical : Frame F) (reused : Bool) (s : Archive F)
      (r : Result ExecutionError (Unit {0}) × Option (Frame F))
      → fetched_of (after_write F coerce_date parse_date canonical reused s r).1 ≡ fetched_of s
  after_write-fetched canonical reused s (ok _, file) = refl
  after_write-fetched canonical reused s (err e, file) = refl

  after_canonical-fetched :
      (w : WriteOutcome) (reused : Bool) (s : Archive F) (r : Result ExecutionError (Frame F))
      → fetched_of (after_canonical F coerce_date parse_date w reused s r).1 ≡ fetched_of s
  after_canonical-fetched w reused s (err e) = refl
  after_canonical-fetched w reused s (ok canonical) =
      after_write-fetched canonical reused s (write_partition_once F w s.normalized canonical)

  after_raw-fetched :
      (w : WriteOutcome) (r : Result ExecutionError (Frame F × Bool) × Archive F)
      → fetched_of (after_raw F coerce_date parse_date w r).1 ≡ fetched_of r.1
  after_raw-fetched w (err e, s) = refl
  after_raw-fetched w (ok (raw, reused), s) =
      after_canonical-fetched w reused s (canonical_of F coerce_date parse_date raw)

  -- Once a raw archive is there, no attempt changes it or asks the adapter again, and without one an attempt asks the adapter
  -- once at most.
  pub execute_partition-fetched :
      (a : Attempt F) (s : Archive F)
      → ((f : Frame F) → s.raw ≡ some f → fetched_of (attempt a s).1 ≡ fetched_of s)
        × ((attempt a s).1.fetches ≤ s.fetches + 1)
  unfolding execute_partition
  execute_partition-fetched a s =
      (λ f stored. execute_from-kept a s s.normalized f stored, execute_from-once a s s.normalized)
    where
      execute_from-kept :
          (a : Attempt F) (s : Archive F) (file : Option (Frame F)) (f : Frame F)
          → s.raw ≡ some f
          → fetched_of (execute_from F coerce_date parse_date read_date a file s).1 ≡ fetched_of s
      execute_from-kept a s (some file) f stored = refl
      execute_from-kept a s none f stored =
          after_raw-fetched a.write_normalized
            (obtain_raw F coerce_date parse_date read_date a s.raw s)
          ∙ rw (stored) refl

      obtain_raw-once :
          (a : Attempt F) (raw fetch : Option (Frame F)) (s : Archive F)
          → a.fetched ≡ fetch
          → (obtain_raw F coerce_date parse_date read_date a raw s).1.fetches ≤ s.fetches + 1
      obtain_raw-once a (some f) fetch s e = omega arith
      obtain_raw-once a none none s e = rw (e) (omega arith)
      obtain_raw-once a none (some f) s e = rw (e) (omega arith)

      execute_from-once :
          (a : Attempt F) (s : Archive F) (file : Option (Frame F))
          → (execute_from F coerce_date parse_date read_date a file s).1.fetches ≤ s.fetches + 1
      execute_from-once a s (some file) = omega arith
      execute_from-once a s none =
          rw
            (ap (λ (p : Option (Frame F) × ℕ). p.1)
              (after_raw-fetched a.write_normalized
                (obtain_raw F coerce_date parse_date read_date a s.raw s)))
            (obtain_raw-once a s.raw a.fetched s refl)
