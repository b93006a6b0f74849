-- ===== src/Transport/Sequence/Tests.antt =====
-- `SequenceTracker` on concrete observations, and the theorems about it at an input.
use automated_reconciliation.Common.{
  ◌+◌, ◌≡◌, refl, some, List, [], ◌∷◌, text, Text, normalize, ok, err,
}
use automated_reconciliation.Common.Int.{negsuc}
use automated_reconciliation.Transport.Sequence.{
  SequenceTracker, SequenceObservation, SequenceStatus, first, in_order, gap, duplicate, reordered,
  negative_sequence, observe, new_tracker,
}
use automated_reconciliation.Transport.Sequence.History.{greatest, expected}
use automated_reconciliation.Transport.Sequence.Runs.{
  Event, observe_all, expected_all, observe_all-eq-expected_all,
}
use automated_reconciliation.Transport.Sequence.Accounting.{
  missing_total, advances, in_stream, missing_total-accounts,
}

abbrev feed : Text
feed = text " iex "

abbrev tracker : SequenceTracker
tracker = record { duplicate_window = 2; highest = []; recent = []; recent_counts = [] }

abbrev events : List Event
events =
    (feed, text "a", 5)
    ∷ (text "IEX", text "A", 6)
    ∷ (feed, text "b", 1)
    ∷ (feed, text "a", 9)
    ∷ (feed, text "a", 6)
    ∷ (feed, text "a", 5)
    ∷ []

abbrev statuses : List SequenceObservation → List SequenceStatus
statuses [] = []
statuses (o ∷ os) = o.status ∷ statuses os

-- The second 5 has left the window of two, so it is REORDERED and not DUPLICATE.
statuses-events :
    statuses (expected_all 2 [] events)
    ≡ first ∷ in_order ∷ first ∷ gap ∷ duplicate ∷ reordered ∷ []
unfolding expected_all expected normalize
statuses-events = refl

negative_rejected : observe tracker feed feed (negsuc 0) ≡ err negative_sequence
unfolding observe normalize
negative_rejected = refl

new_tracker_two : new_tracker 2 ≡ some tracker
unfolding new_tracker
new_tracker_two = refl

observe_all-eq-expected_all_example :
    (tracker' : SequenceTracker) × (observe_all tracker events
      ≡ ok (expected_all 2 [] events, tracker'))
unfolding normalize
observe_all-eq-expected_all_example = observe_all-eq-expected_all 2 tracker events new_tracker_two (
  (refl, refl),
  ((refl, refl), ((refl, refl), ((refl, refl), ((refl, refl), ((refl, refl), tt))))),
)

missing_total-accounts_example :
    (os : List SequenceObservation) × (tracker' : SequenceTracker) × (observe_all tracker
        (in_stream feed feed (3 ∷ 7 ∷ 4 ∷ []))
      ≡ ok (os, tracker'))
    × (missing_total os + advances os + 3 ≡ 8)
unfolding normalize greatest
missing_total-accounts_example =
    missing_total-accounts 2 3 7 (7 ∷ 4 ∷ []) feed feed tracker new_tracker_two refl refl refl
