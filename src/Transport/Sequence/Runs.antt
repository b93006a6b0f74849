-- ===== src/Transport/Sequence/Runs.antt =====
-- Runs of the tracker over many observations of many streams.
use automated_reconciliation.Common.{
  ℕ, zero, suc, ◌≡◌, refl, false, some, List, [], ◌∷◌, ◌++◌, if◌then◌else◌, ◌==◌, nat_eq, pair_eq,
  list_eq, beq_refl, Text, is_empty, strip, normalize, beq_eq, ne_of_beq, Dict, Result, ok, ◌>>=◌,
  arith, Bool-cases, inl, inr, All, subst,
}
use automated_reconciliation.Common.Int.{pos}
use automated_reconciliation.Transport.Sequence.{
  Key, SequenceTracker, SequenceObservation, SequenceError, observe, new_tracker,
}
use automated_reconciliation.Transport.Sequence.History.{tally, expected, keep_last, greatest}
use automated_reconciliation.Transport.Sequence.Eviction.{Tallies}
use automated_reconciliation.Transport.Sequence.Refinement.{
  Tracks, observed, kept, observed-Tracks, observed-Tracks_ne, observe_key_lem,
}

-- Everything that was observed, oldest first.
abbrev pub Log : Type 0
Log = List (Key × ℕ)

-- The numbers of one stream.
unfoldable pub stream_of : Key → Log → List ℕ
stream_of key [] = []
stream_of key ((k, n) ∷ log) = if key == k then n ∷ stream_of key log else stream_of key log

-- The tracker has observed `log`.
abbrev pub Follows : SequenceTracker → Log → Type 0
Follows tracker log = (key : Key) → Tracks tracker key (stream_of key log)

pub stream_of-append :
    (key k : Key) (n : ℕ) (log : Log)
    → stream_of key (log ++ (k, n) ∷ [])
      ≡ (if key == k then stream_of key log ++ n ∷ [] else stream_of key log)
unfolding stream_of
stream_of-append key k n [] = ground arith
stream_of-append key k n ((j, m) ∷ log) = ground (arith, stream_of-append key k n log)

observed-Follows :
    (tracker : SequenceTracker) (key : Key) (n : ℕ) (log : Log) (counts : Dict ℕ ℕ)
    → Follows tracker log
    → Tallies (kept tracker (stream_of key log) n) counts
    → Follows (observed tracker key (stream_of key log) n counts) (log ++ (key, n) ∷ [])
observed-Follows tracker key n log counts h fits j = elim (Bool-cases (j == key)) [
  | inl same ↦
      rw (beq_eq j key same, stream_of-append, beq_refl key)
        (observed-Tracks tracker key n (stream_of key log) counts fits)
  | inr other ↦
      rw (stream_of-append, other)
        (observed-Tracks_ne tracker key n (stream_of key log) counts j (stream_of j log)
          (ne_of_beq j key other) (h j))
]

abbrev pub IsNamed : Text → Type 0
IsNamed s = is_empty (strip s) ≡ false

-- An observation of a named stream answers what the stream's history determines, and is remembered.
pub observe-Follows :
    (tracker : SequenceTracker) (source stream_id : Text) (n : ℕ) (log : Log)
    → IsNamed source
    → IsNamed stream_id
    → Follows tracker log
    → let key : Key = (normalize source, normalize stream_id) in
      (tracker' : SequenceTracker) × (observe tracker source stream_id (pos n)
        ≡ ok (expected tracker.duplicate_window (stream_of key log) n, tracker'))
      × (tracker'.duplicate_window ≡ tracker.duplicate_window)
      × Follows tracker' (log ++ (key, n) ∷ [])
unfolding observe
observe-Follows tracker source stream_id n log p q h =
    let key : Key = (normalize source, normalize stream_id) in
    let (counts, run, fits) = observe_key_lem tracker key n (stream_of key log) (h key) in
    (
      observed tracker key (stream_of key log) n counts,
      ground (arith, p, q, run),
      refl,
      observed-Follows tracker key n log counts h fits,
    )

-- One call of `observe`.
abbrev pub Event : Type 0
Event = Text × Text × ℕ

abbrev pub key_of : Event → Key
key_of (source, stream_id, n) = (normalize source, normalize stream_id)

abbrev pub IsNamedEvent : Event → Type 0
IsNamedEvent (source, stream_id, n) = IsNamed source × IsNamed stream_id

-- Observe one event after another, up to the first exception.
unfoldable pub observe_all :
    SequenceTracker → List Event → Result SequenceError (List SequenceObservation × SequenceTracker)
observe_all tracker [] = ok ([], tracker)
observe_all tracker ((source, stream_id, n) ∷ events) =
    observe tracker source stream_id (pos n) >>= λ r.
    (observe_all r.1 events >>= λ rest. ok (r.0 ∷ rest.0, rest.1))

-- What the histories determine for every event.
unfoldable pub expected_all : ℕ → Log → List Event → List SequenceObservation
unfolding stream_of
expected_all w log [] = []
expected_all w log (event ∷ events) =
    expected w (stream_of (key_of event) log) event.2
    ∷ expected_all w (log ++ (key_of event, event.2) ∷ []) events

observe_all_from :
    (tracker : SequenceTracker) (log : Log) (events : List Event)
    → Follows tracker log
    → All IsNamedEvent events
    → (tracker' : SequenceTracker) × (observe_all tracker events
        ≡ ok (expected_all tracker.duplicate_window log events, tracker'))
unfolding observe_all expected_all
observe_all_from tracker log [] h named = (tracker, refl)
observe_all_from tracker log ((source, stream_id, n) ∷ events) h named =
    let (next, run, same, follows) =
      observe-Follows tracker source stream_id n log named.0.0 named.0.1 h in
    let (final, rest) =
      observe_all_from next (log ++ ((normalize source, normalize stream_id), n) ∷ []) events
        follows named.1 in
    (final, rw run (ground (arith, rest, same)))

abbrev pub blank : ℕ → SequenceTracker
blank w = record { duplicate_window = w; highest = []; recent = []; recent_counts = [] }

pub blank-Follows : (w : ℕ) → Follows (blank w) []
unfolding greatest keep_last stream_of tally
blank-Follows w key = record { at_highest = refl; at_recent = refl; at_counts = λ n. refl }

pub new_tracker_lem :
    (w : ℕ) (tracker : SequenceTracker) → new_tracker w ≡ some tracker → blank w ≡ tracker
unfolding new_tracker
new_tracker_lem zero tracker e = cc
new_tracker_lem (suc w) tracker e = cc

-- From a new tracker, whatever named streams are interleaved, `observe` never raises, and each answer is the
-- one that the earlier numbers of the same stream determine.
pub observe_all-eq-expected_all :
    (w : ℕ) (tracker : SequenceTracker) (events : List Event)
    → new_tracker w ≡ some tracker
    → All IsNamedEvent events
    → (tracker' : SequenceTracker) × (observe_all tracker events
        ≡ ok (expected_all w [] events, tracker'))
observe_all-eq-expected_all w tracker events e named =
    subst
      (λ t.
        (tracker' : SequenceTracker) × (observe_all t events
          ≡ ok (expected_all w [] events, tracker')))
      (new_tracker_lem w tracker e) (observe_all_from (blank w) [] events (blank-Follows w) named)
