-- ===== src/Transport/Monitor.antt =====
-- `monitor_transport` of reconciliation_engine/realtime/network_transport.py, on the events that the adapter yields: each is classified by
-- the tracker, journalled if there is a journal, and collected if that is asked for. The identifiers of spans and the readings of the clock
-- stand with the event. What is logged and printed is left out.
pub mod Journalled
mod Tests
use automated_reconciliation.Common.{
  ℕ, Bool, true, false, Option, none, some, List, [], ◌∷◌, ◌++◌, if◌then◌else◌, Text, text, decimal,
  Dict, Eq, Result, ok, err, Action, bind, lift,
}
use automated_reconciliation.Common.Int.{pos}
use automated_reconciliation.Common.Float.{Float}
use automated_reconciliation.Transport.Sequence.{
  SequenceStatus, SequenceObservation, SequenceTracker, SequenceError, first, in_order, gap,
  duplicate, reordered, observe,
}
use automated_reconciliation.Transport.Events.{
  Value, null, integer, MarketEvent, status_name, as_journal_event,
}
use automated_reconciliation.Storage.Journal.{
  ColumnType, Driver, Persist, JournalRow, JournalError, persist_realtime_event,
}

-- What the loop raises.
pub data MonitorError : Type 0 where
  tracking_failed : SequenceError → MonitorError
  journal_failed : JournalError → MonitorError

-- `_sequence_reason`; a gap and a reordered event have an expected number
abbrev pub shown : Option ℕ → Text
shown none = text "None"
shown (some n) = decimal n

unfoldable pub sequence_reason : ℕ → SequenceObservation → Text
sequence_reason n o = elim o.status [
  | gap ↦
      text "Missing "
      ++ decimal o.missing_count
      ++ text " event(s) before vendor sequence "
      ++ decimal n
      ++ text "; expected "
      ++ shown o.expected_sequence
  | duplicate ↦ text "Duplicate vendor sequence " ++ decimal n
  | reordered ↦
      text "Reordered vendor sequence "
      ++ decimal n
      ++ text "; next expected was "
      ++ shown o.expected_sequence
  | first ↦ text "Vendor sequence " ++ decimal n ++ text " classified FIRST"
  | in_order ↦ text "Vendor sequence " ++ decimal n ++ text " classified IN_ORDER"
]

module _ (F : Float) where
  -- An event, with its trace and span, and the reading of the clock when it is journalled.
  pub record Visit : Type 0 where
    pub event : MarketEvent F
    pub trace_id : Option (Value F)
    pub span_id : Option (Value F)
    pub now : Value F

  abbrev pub JournalTable : Type 0
  JournalTable = Dict (Value F) (JournalRow (Value F))

  pub record Monitor : Type 0 where
    pub tracker : SequenceTracker
    pub journal : Option JournalTable
    pub observed : List (MarketEvent F)

  abbrev pub is_null : Value F → Bool
  is_null null = true
  is_null _ = false

  module _ ⦃e : Eq (Value F)⦄ (converts : ColumnType → Value F → Bool) (isoformat : ℕ → Text)
      (latency : ℕ → ℕ → F.Num) (should_collect : Bool) where
    -- None is NULL; which other values the database converts to the type of a column is a parameter.
    abbrev pub journal_driver : Driver (Value F)
    journal_driver = record { is_null = is_null; converts = converts }

    -- The arguments of `persist_realtime_event`.
    abbrev pub persist_of : Visit → SequenceObservation → Persist (Value F)
    persist_of v o = record {
      event =
          as_journal_event F isoformat latency v.event o.status
            (sequence_reason v.event.sequence_number o) o.expected_sequence o.missing_count;
      trace_id = v.trace_id;
      span_id = v.span_id;
      now = v.now;
    }

    abbrev pub with_table :
        Result JournalError Bool × JournalTable
        → Result MonitorError (Unit {0}) × Option JournalTable
    with_table (ok _, table) = (ok tt, some table)
    with_table (err x, table) = (err (journal_failed x), some table)

    abbrev pub journalled :
        Visit
        → SequenceObservation
        → Option JournalTable
        → Result MonitorError (Unit {0}) × Option JournalTable
    journalled v o none = (ok tt, none)
    journalled v o (some table) =
        with_table (persist_realtime_event journal_driver (integer (pos 0)) (persist_of v o) table)

    abbrev pub collected : MarketEvent F → List (MarketEvent F) → List (MarketEvent F)
    collected event events = if should_collect then events ++ event ∷ [] else events

    abbrev pub after_journal :
        Visit
        → Monitor
        → Result MonitorError (Unit {0}) × Option JournalTable
        → Result MonitorError (Unit {0}) × Monitor
    after_journal v m (ok _, journal) =
        (ok tt, record m { journal = journal; observed = collected v.event m.observed })
    after_journal v m (err x, journal) = (err x, record m { journal = journal })

    abbrev pub after_observe :
        Visit
        → Monitor
        → Result SequenceError (SequenceObservation × SequenceTracker)
        → Result MonitorError (Unit {0}) × Monitor
    after_observe v m (err x) = (err (tracking_failed x), m)
    after_observe v m (ok (o, tracker)) =
        after_journal v (record m { tracker = tracker }) (journalled v o m.journal)

    -- One round of the loop.
    unfoldable pub monitor_event : Visit → Action MonitorError Monitor (Unit {0})
    monitor_event v m =
        after_observe v m
          (observe m.tracker v.event.source v.event.stream_id (pos v.event.sequence_number))

    -- The loop of `monitor_transport`.
    unfoldable pub monitor_all : List Visit → Action MonitorError Monitor (Unit {0})
    monitor_all [] = lift (ok tt)
    monitor_all (v ∷ visits) = bind (monitor_event v) λ _. monitor_all visits
