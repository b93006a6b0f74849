-- ===== src/Transport/Sequence/Refinement.antt =====
-- The tracker refines the description by histories: each stream's dictionaries hold the greatest number, the
-- window and its counts, and `observe` answers what the history alone determines.
use automated_reconciliation.Common.{
  ℕ, zero, suc, ◌+◌, ◌≡◌, ◌≢◌, refl, some, List, [], ◌∷◌, ◌++◌, ltb, Dict, lookup, insert,
  lookup-insert, nat_eq, pair_eq, list_eq, beq_refl, beq_ne, arith, contains,
}
use automated_reconciliation.Transport.Sequence.{
  Key, SequenceTracker, classify, get_default, is_known, observe_key,
}
use automated_reconciliation.Transport.Sequence.History.{
  greatest, greatest-append, keep_last, keep_last-append, expected, contains-eq-tally,
  contains-keep_last, le-greatest, above, tally,
}
use automated_reconciliation.Transport.Sequence.Eviction.{
  Tallies, Tallies-append, evict-Tallies, nonzero,
}

-- What a tracker holds of one stream, if `history` was observed there.
pub record Tracks (tracker : SequenceTracker) (key : Key) (history : List ℕ) : Type 0 where
  pub at_highest : lookup key tracker.highest ≡ greatest history
  pub at_recent :
      get_default [] (lookup key tracker.recent) ≡ keep_last tracker.duplicate_window history
  pub at_counts :
      Tallies
        (keep_last tracker.duplicate_window history)
        (get_default [] (lookup key tracker.recent_counts))

is_known-eq-contains :
    (n : ℕ) (xs : List ℕ) (counts : Dict ℕ ℕ)
    → Tallies xs counts
    → is_known (lookup n counts) ≡ contains n xs
is_known-eq-contains n xs counts h = rw (h n, contains-eq-tally) (known (tally n xs))
  where
    known : (k : ℕ) → is_known (nonzero k) ≡ ltb 0 k
    known zero = refl
    known (suc k) = ground arith

classify_lem :
    (w n : ℕ) (history : List ℕ)
    → classify (greatest history) (contains n (keep_last w history)) n
      ≡ (expected w history n, greatest (history ++ n ∷ []))
unfolding classify expected
classify_lem w n [] = refl
classify_lem w n (x ∷ xs) = ground (
  arith,
  greatest-append (x ∷ xs) n,
  contains-keep_last w n (x ∷ xs),
  le-greatest n (above x (greatest xs)) (x ∷ xs),
)

abbrev pub kept : SequenceTracker → List ℕ → ℕ → List ℕ
kept tracker history n = keep_last tracker.duplicate_window (history ++ n ∷ [])

-- The tracker after an observation.
abbrev pub observed : SequenceTracker → Key → List ℕ → ℕ → Dict ℕ ℕ → SequenceTracker
observed tracker key history n counts = record tracker {
  highest = insert key (above n (greatest history)) tracker.highest;
  recent = insert key (kept tracker history n) tracker.recent;
  recent_counts = insert key counts tracker.recent_counts;
}

pub observed-Tracks :
    (tracker : SequenceTracker) (key : Key) (n : ℕ) (history : List ℕ) (counts : Dict ℕ ℕ)
    → Tallies (kept tracker history n) counts
    → Tracks (observed tracker key history n counts) key (history ++ n ∷ [])
observed-Tracks tracker key n history counts h = record {
  at_highest = rw (lookup-insert, beq_refl key, greatest-append);
  at_recent = rw (lookup-insert, beq_refl key);
  at_counts = rw (lookup-insert, beq_refl key) h;
}

pub observed-Tracks_ne :
    (tracker : SequenceTracker) (key : Key) (n : ℕ) (history : List ℕ) (counts : Dict ℕ ℕ) (j : Key)
    (other : List ℕ)
    → j ≢ key
    → Tracks tracker j other
    → Tracks (observed tracker key history n counts) j other
observed-Tracks_ne tracker key n history counts j other ne h =
    let e = beq_ne j key ne in
    record {
      at_highest = rw (lookup-insert, e) h.at_highest;
      at_recent = rw (lookup-insert, e) h.at_recent;
      at_counts = rw (lookup-insert, e) h.at_counts;
    }

-- One observation of a stream with a known history.
pub observe_key_lem :
    (tracker : SequenceTracker) (key : Key) (n : ℕ) (history : List ℕ)
    → Tracks tracker key history
    → (counts : Dict ℕ ℕ) × (observe_key tracker key n
        ≡ some (expected tracker.duplicate_window history n, observed tracker key history n counts))
      × Tallies (kept tracker history n) counts
unfolding observe_key
observe_key_lem tracker key n history h =
    let w = tracker.duplicate_window in
    let counts = get_default [] (lookup key tracker.recent_counts) in
    let counts' = insert n (get_default 0 (lookup n counts) + 1) counts in
    let more = Tallies-append (keep_last w history) n counts h.at_counts in
    let (final, run, fits) = evict-Tallies w (keep_last w history ++ n ∷ []) counts' more in
    (
      final,
      ground (
        arith,
        h.at_recent,
        h.at_highest,
        is_known-eq-contains n (keep_last w history) counts h.at_counts,
        classify_lem w n history,
        run,
        keep_last-append w history n,
        greatest-append history n,
      ),
      rw keep_last-append at fits,
    )
