-- ===== src/Transport/Sequence.antt =====
-- `class SequenceTracker` of reconciliation_engine/realtime/network_transport.py. The proofs are in the modules
-- below.
pub mod History
mod Eviction
pub mod Refinement
pub mod Runs
pub mod Accounting
mod Tests
use automated_reconciliation.Common.{
  ℕ, zero, suc, ◌+◌, ◌-◌, Bool, true, false, Option, none, some, List, [], ◌∷◌, ◌++◌, ltb,
  if◌then◌else◌, length, Dict, lookup, insert, remove, Text, is_empty, strip, normalize, ◌==◌,
  nat_eq, pair_eq, list_eq, Result, ok, err,
}
use automated_reconciliation.Common.Int.{ℤ, pos, negsuc}

pub data SequenceStatus : Type 0 where
  first in_order gap duplicate reordered : SequenceStatus

pub record SequenceObservation : Type 0 where
  pub status : SequenceStatus
  pub expected_sequence : Option ℕ
  pub missing_count : ℕ

-- The exceptions of `observe`. The last is Python's own, from `recent_counts[removed]`.
pub data SequenceError : Type 0 where
  empty_source empty_stream_id negative_sequence key_error : SequenceError

abbrev pub Key : Type 0
Key = Text × Text

pub record SequenceTracker : Type 0 where
  pub duplicate_window : ℕ
  pub highest : Dict Key ℕ
  pub recent : Dict Key (List ℕ)
  pub recent_counts : Dict Key (Dict ℕ ℕ)

-- `SequenceTracker(duplicate_window=...)`; `none` is the ValueError for a window of zero
unfoldable pub new_tracker : ℕ → Option SequenceTracker
new_tracker zero = none
new_tracker (suc w) =
    some (record { duplicate_window = suc w; highest = []; recent = []; recent_counts = [] })

-- `dict.setdefault(key, default)`, as the value it returns
abbrev pub get_default {ℓ} : {V : Type ℓ} → V → Option V → V
get_default d none = d
get_default d (some v) = v

abbrev pub is_known : Option ℕ → Bool
is_known none = false
is_known (some _) = true

-- The ladder of tests of `observe`: the observation, and the highest number after it.
unfoldable pub classify : Option ℕ → Bool → ℕ → SequenceObservation × Option ℕ
classify none true n =
    (record { status = duplicate; expected_sequence = none; missing_count = 0 }, none)
classify none false n =
    (record { status = first; expected_sequence = none; missing_count = 0 }, some n)
classify (some highest) true n = (
  record { status = duplicate; expected_sequence = some (highest + 1); missing_count = 0 },
  some highest,
)
classify (some highest) false n =
    if n == highest + 1
    then (
      record { status = in_order; expected_sequence = some (highest + 1); missing_count = 0 },
      some n,
    )
    else if ltb (highest + 1) n
    then (
      record {
        status = gap;
        expected_sequence = some (highest + 1);
        missing_count = n - highest - 1;
      },
      some n,
    )
    else (
      record { status = reordered; expected_sequence = some (highest + 1); missing_count = 0 },
      some highest,
    )

-- One round of the eviction loop, after `popleft`: `none` is the KeyError. A stored count is at
-- least 1, so the case of zero is never met.
abbrev pub decrement : ℕ → Dict ℕ ℕ → Option (Dict ℕ ℕ)
decrement removed counts = elim (lookup removed counts) [
  | none ↦ none
  | some zero ↦ some (remove removed counts)
  | some (suc zero) ↦ some (remove removed counts)
  | some (suc (suc n)) ↦ some (insert removed (suc n) counts)
]

-- `while len(recent) > self.duplicate_window`
unfoldable pub evict : ℕ → List ℕ → Dict ℕ ℕ → Option (List ℕ × Dict ℕ ℕ)
evict window [] counts = some ([], counts)
evict window (x ∷ recent) counts = elim (ltb window (length (x ∷ recent))) [
  | true ↦ elim (decrement x counts) [ none ↦ none | some counts' ↦ evict window recent counts' ]
  | false ↦ some (x ∷ recent, counts)
]

abbrev pub set_highest : Key → Option ℕ → Dict Key ℕ → Dict Key ℕ
set_highest key none d = d
set_highest key (some n) d = insert key n d

-- What `observe` does for a stream that has passed the checks.
unfoldable pub observe_key :
    SequenceTracker → Key → ℕ → Option (SequenceObservation × SequenceTracker)
unfolding classify evict
observe_key tracker key n =
    let counts = get_default [] (lookup key tracker.recent_counts) in
    let recent = get_default [] (lookup key tracker.recent) in
    let (observation, highest) =
      classify (lookup key tracker.highest) (is_known (lookup n counts)) n in
    let counts' = insert n (get_default 0 (lookup n counts) + 1) counts in
    elim (evict tracker.duplicate_window (recent ++ n ∷ []) counts') [
      | none ↦ none
      | some (kept, kept_counts) ↦ some (
        observation,
        record tracker {
          highest = set_highest key highest tracker.highest;
          recent = insert key kept tracker.recent;
          recent_counts = insert key kept_counts tracker.recent_counts;
        },
      )
    ]

abbrev or_key_error {ℓ} : {A : Type ℓ} → Option A → Result SequenceError A
or_key_error none = err key_error
or_key_error (some a) = ok a

-- `observe(source, stream_id, sequence_number)`
unfoldable pub observe :
    SequenceTracker → Text → Text → ℤ → Result SequenceError (SequenceObservation × SequenceTracker)
unfolding observe_key
observe tracker source stream_id (negsuc _) =
    if is_empty (strip source)
    then err empty_source
    else if is_empty (strip stream_id)
    then err empty_stream_id
    else err negative_sequence
observe tracker source stream_id (pos n) =
    if is_empty (strip source)
    then err empty_source
    else if is_empty (strip stream_id)
    then err empty_stream_id
    else or_key_error (observe_key tracker (normalize source, normalize stream_id) n)
