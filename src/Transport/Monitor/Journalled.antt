-- ===== src/Transport/Monitor/Journalled.antt =====
-- What `monitor_transport` has journalled and collected, in terms of the histories of the streams.
use automated_reconciliation.Common.{
  ℕ, ◌≡◌, Bool, true, some, List, [], ◌∷◌, ◌++◌, Text, normalize, Distinct, Eq, nat_eq, list_eq,
  pair_eq,
}
use automated_reconciliation.Common.Int.{pos}
use automated_reconciliation.Common.Float.{Float}
use automated_reconciliation.Transport.Sequence.{Key, SequenceTracker, SequenceObservation}
use automated_reconciliation.Transport.Sequence.History.{expected}
use automated_reconciliation.Transport.Sequence.Runs.{Log, stream_of, Follows}
use automated_reconciliation.Transport.Events.{Value, string, integer, MarketEvent}
use automated_reconciliation.Storage.Journal.{ColumnType, Driver, is_storable, row_of, Persist}
use automated_reconciliation.Transport.Monitor.{
  Visit, Monitor, JournalTable, journal_driver, persist_of, collected,
}

module _ (F : Float) where
  abbrev pub key_of : Visit F → Key
  key_of v = (normalize v.event.source, normalize v.event.stream_id)

  -- What is seen after an event, in its stream.
  abbrev pub logged : Log → Visit F → Log
  logged log v = log ++ (key_of v, v.event.sequence_number) ∷ []

  -- What the earlier numbers of its stream make of an event.
  abbrev pub judged : ℕ → Log → Visit F → SequenceObservation
  judged w log v = expected w (stream_of (key_of v) log) v.event.sequence_number

  module _ ⦃e : Eq (Value F)⦄ (converts : ColumnType → Value F → Bool) (isoformat : ℕ → Text)
      (latency : ℕ → ℕ → F.Num) (should_collect : Bool) where
    -- The journal events of a run, each with the status that its stream's history determines.
    abbrev pub calls_from : ℕ → Log → List (Visit F) → List (Persist (Value F) × Value F)
    calls_from w log [] = []
    calls_from w log (v ∷ visits) =
        (
          persist_of F converts isoformat latency should_collect v (judged w log v),
          string v.event.event_id,
        )
        ∷ calls_from w (logged log v) visits

    abbrev pub collect_all : List (Visit F) → List (MarketEvent F) → List (MarketEvent F)
    collect_all [] events = events
    collect_all (v ∷ visits) events =
        collect_all visits (collected F converts isoformat latency should_collect v.event events)

    abbrev pub base : Driver (Value F)
    base = journal_driver F converts isoformat latency should_collect

    -- The columns of the journal take the row of a call.
    abbrev pub IsStorable : Persist (Value F) × Value F → Type 0
    IsStorable call = is_storable base (row_of (integer (pos 0)) call.0) ≡ true

    -- The monitor has seen `log`, and has a journal.
    pub record IsMonitoring (w : ℕ) (log : Log) (table : JournalTable F) (m : Monitor F)
        : Type 0 where
      pub follows : Follows m.tracker log
      pub window : m.tracker.duplicate_window ≡ w
      pub journal : m.journal ≡ some table
      pub distinct : Distinct table

    -- A new monitor with a journal.
    abbrev pub started : SequenceTracker → JournalTable F → Monitor F
    started tracker table = record { tracker = tracker; journal = some table; observed = [] }
