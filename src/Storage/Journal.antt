-- ===== src/Storage/Journal.antt =====
-- `persist_realtime_event` of reconciliation_engine/storage/duckdb.py, with the table realtime_event_journal. An event is a dictionary from
-- the names of its fields to values of some type, and the readings of the clock are values too. Which values are None, and which of the
-- others the database converts to the type of a column, is a parameter.
pub mod FirstWins
mod Tests
use automated_reconciliation.Common.{
  Bool, true, false, not, ◌&&◌, Option, none, some, List, [], ◌∷◌, map, if◌then◌else◌, Text, text,
  any_of, Dict, lookup, insert, contains, is_some, Eq, ◌==◌, list_eq, nat_eq, Result, ok, err,
}
use automated_reconciliation.Storage.Tables.{insert_rows}

abbrev pub required_fields : List Text
required_fields =
    text "event_id"
    ∷ text "sequence_number"
    ∷ text "sequence_status"
    ∷ text "transport"
    ∷ text "symbol"
    ∷ text "price"
    ∷ text "exchange_timestamp"
    ∷ text "received_timestamp"
    ∷ text "latency_ms"
    ∷ text "pct_change"
    ∷ text "is_anomaly"
    ∷ text "reason"
    ∷ []

-- The columns that are read with `event.get`, before `missing_count`.
abbrev pub optional_fields : List Text
optional_fields =
    text "source"
    ∷ text "stream_id"
    ∷ text "event_type"
    ∷ text "quantity"
    ∷ text "correlation_id"
    ∷ text "expected_sequence"
    ∷ []

pub data ColumnType : Type 0 where
  varchar bigint double timestamp bool : ColumnType

-- A column: its type, and whether it is NOT NULL.
abbrev pub Column : Type 0
Column = ColumnType × Bool

-- The columns of `required_fields`.
abbrev pub required_column_types : List Column
required_column_types =
    (varchar, true)
    ∷ (bigint, true)
    ∷ (varchar, true)
    ∷ (varchar, true)
    ∷ (varchar, true)
    ∷ (double, true)
    ∷ (timestamp, true)
    ∷ (timestamp, true)
    ∷ (double, true)
    ∷ (double, false)
    ∷ (bool, true)
    ∷ (varchar, true)
    ∷ []

-- The columns of `optional_fields`.
abbrev pub optional_column_types : List Column
optional_column_types =
    (varchar, false)
    ∷ (varchar, false)
    ∷ (varchar, false)
    ∷ (double, false)
    ∷ (varchar, false)
    ∷ (bigint, false)
    ∷ []

-- The ValueError, the ConstraintException of the primary key, and what an INSERT raises of a value that its column does not take.
pub data JournalError : Type 0 where
  fields_missing key_taken not_storable : JournalError

module _ (V : Type 0) where
  -- Which values are None, and which of the others are converted to a type.
  pub record Driver : Type 0 where
    pub is_null : V → Bool
    pub converts : ColumnType → V → Bool

  abbrev pub Event : Type 0
  Event = Dict Text V

  -- One call: the event, its trace and span, and the reading of the clock.
  pub record Persist : Type 0 where
    pub event : Event
    pub trace_id : Option V
    pub span_id : Option V
    pub now : V

  pub record JournalRow : Type 0 where
    pub required_values : List (Option V)
    pub optional_values : List (Option V)
    pub missing_count : V
    pub trace_id : Option V
    pub span_id : Option V
    pub recorded_at : V

module _ {V : Type 0} where
  abbrev pub lacks : Event V → Text → Bool
  lacks event field = not (is_some (lookup field event))

  abbrev pub get_or : V → Option V → V
  get_or default none = default
  get_or default (some v) = v

  -- The parameters of the INSERT, where the first argument is the value 0.
  unfoldable pub row_of : V → Persist V → JournalRow V
  row_of nothing_missing p = record {
    required_values = map (λ field. lookup field p.event) required_fields;
    optional_values = map (λ field. lookup field p.event) optional_fields;
    missing_count = get_or nothing_missing (lookup (text "missing_count") p.event);
    trace_id = p.trace_id;
    span_id = p.span_id;
    recorded_at = p.now;
  }

  module _ (D : Driver V) where
    -- Whether a column takes a parameter.
    abbrev pub takes : Column → Option V → Bool
    takes (type, not_null) none = not not_null
    takes (type, not_null) (some v) = if D.is_null v then not not_null else D.converts type v

    abbrev pub all_take : List Column → List (Option V) → Bool
    all_take [] values = true
    all_take (column ∷ columns) [] = true
    all_take (column ∷ columns) (value ∷ values) = takes column value && all_take columns values

    -- Whether the table takes a row.
    unfoldable pub is_storable : JournalRow V → Bool
    is_storable row =
        all_take required_column_types row.required_values
        && all_take optional_column_types row.optional_values
        && takes (bigint, false) (some row.missing_count)
        && takes (varchar, false) row.trace_id
        && takes (varchar, false) row.span_id
        && takes (timestamp, true) (some row.recorded_at)

  abbrev pub inserted :
      Option (Dict V (JournalRow V))
      → Dict V (JournalRow V)
      → Result JournalError Bool × Dict V (JournalRow V)
  inserted none journal = (err key_taken, journal)
  inserted (some journal') journal = (ok true, journal')

module _ {V : Type 0} ⦃e : Eq V⦄ (D : Driver V) (nothing_missing : V) where
  -- The statements, for the value of `event_id`
  abbrev pub persist_under :
      Option V
      → Persist V
      → Dict V (JournalRow V)
      → Result JournalError Bool × Dict V (JournalRow V)
  persist_under none p journal = (err fields_missing, journal)
  persist_under (some id) p journal =
      if is_some (lookup id journal)
      then (ok false, journal)
      else if not (is_storable D (row_of nothing_missing p))
      then (err not_storable, journal)
      else inserted (insert_rows ((id, row_of nothing_missing p) ∷ []) journal) journal

  -- `persist_realtime_event`
  unfoldable pub persist_realtime_event :
      Persist V → Dict V (JournalRow V) → Result JournalError Bool × Dict V (JournalRow V)
  persist_realtime_event p journal =
      if any_of (lacks p.event) required_fields
      then (err fields_missing, journal)
      else persist_under (lookup (text "event_id") p.event) p journal
