-- ===== src/Transport/Events.antt =====
-- `MarketEvent` of reconciliation_engine/realtime/network_transport.py, with the two functions that check its values. A moment is a
-- number of microseconds in UTC. What `datetime.fromisoformat`, `isoformat`, `uuid5`, `str` of a value that is no text, `float` of an
-- integer and the rounding of a latency do are parameters.
pub mod Normal
pub mod RoundTrip
mod Tests
use automated_reconciliation.Common.{
  ℕ, Bool, true, false, not, ◌&&◌, ◌||◌, ltb, leb, Option, none, some, List, [], ◌∷◌, ◌++◌, map,
  if◌then◌else◌, Text, text, is_empty, strip, normalize, contains, any_of, is_some, decimal, Dict,
  lookup, ◌==◌, nat_eq, list_eq, Result, ok, err, ◌>>=◌, ◌>>◌, raise_if,
}
use automated_reconciliation.Common.Int.{ℤ, pos, negsuc}
use automated_reconciliation.Common.Float.{Float}
use automated_reconciliation.Transport.Sequence.{
  SequenceStatus, first, in_order, gap, duplicate, reordered,
}

-- The EventValidationErrors, and the OverflowError of `float`.
pub data EventError : Type 0 where
  fields_missing bad_sequence bad_string bad_transport bad_stream_id : EventError
  bad_timestamp not_a_timestamp naive_timestamp received_early : EventError
  empty_event_id empty_correlation_id not_numeric not_in_range overflow : EventError

-- `datetime`: naive, or at a moment.
abbrev pub DateTime : Type 0
DateTime = Option ℕ

abbrev pub required_names : List Text
required_names =
    text "source"
    ∷ text "sequence_number"
    ∷ text "symbol"
    ∷ text "event_type"
    ∷ text "price"
    ∷ text "quantity"
    ∷ text "exchange_timestamp"
    ∷ []

-- `value.replace("Z", "+00:00")`
abbrev pub replace_z : Text → Text
replace_z [] = []
replace_z (c ∷ s) = let rest = replace_z s in if c == 90 then text "+00:00" ++ rest else c ∷ rest

-- `if not isinstance(value, str) or not value.strip()`, of a text
abbrev pub required_text : EventError → Option Text → Result EventError Text
required_text e none = err e
required_text e (some s) = raise_if (is_empty (strip s)) e >> ok (normalize s)

abbrev pub status_name : SequenceStatus → Text
status_name first = text "FIRST"
status_name in_order = text "IN_ORDER"
status_name gap = text "GAP"
status_name duplicate = text "DUPLICATE"
status_name reordered = text "REORDERED"

abbrev pub in_utc : DateTime → Result EventError ℕ
in_utc none = err naive_timestamp
in_utc (some t) = ok t

abbrev pub parsed : Option DateTime → Result EventError ℕ
parsed none = err bad_timestamp
parsed (some d) = in_utc d

-- `received_at or datetime.now(timezone.utc)`
abbrev pub received_or : ℕ → Option DateTime → DateTime
received_or now none = some now
received_or now (some d) = d

module _ (F : Float) where
  -- The values of a payload; a `number` without a value is a NaN, and `other` stands for lists and dictionaries, by their text.
  pub data Value : Type 0 where
    string : Text → Value
    integer : ℤ → Value
    number : Option F.Num → Value
    boolean : Bool → Value
    null : Value
    instant : DateTime → Value
    other : Text → Value

  abbrev pub Payload : Type 0
  Payload = Dict Text Value

  pub record MarketEvent : Type 0 where
    pub event_id : Text
    pub source : Text
    pub stream_id : Text
    pub transport : Text
    pub sequence_number : ℕ
    pub symbol : Text
    pub event_type : Text
    pub price : F.Num
    pub quantity : F.Num
    pub exchange_timestamp : ℕ
    pub received_timestamp : ℕ
    pub correlation_id : Text

  abbrev pub lacks_field : Payload → Text → Bool
  lacks_field payload name = not (is_some (lookup name payload))

  -- The text that a value is, if it is one.
  abbrev pub text_in : Option Value → Option Text
  text_in (some (string s)) = some s
  text_in _ = none

  -- `payload["sequence_number"]`
  abbrev pub sequence_of : Option Value → Result EventError ℕ
  sequence_of (some (integer (pos n))) = ok n
  sequence_of _ = err bad_sequence

  abbrev pub value_or_text : Text → Option Value → Value
  value_or_text default none = string default
  value_or_text default (some v) = v

  module _ (parse_iso : Text → Option DateTime) where
    -- `_utc_datetime`
    abbrev pub utc_datetime : Option Value → Result EventError ℕ
    utc_datetime (some (instant d)) = in_utc d
    utc_datetime (some (string s)) = parsed (parse_iso (replace_z s))
    utc_datetime _ = err not_a_timestamp

  -- The test of `_positive_number` on a number.
  unfoldable pub is_refused : Bool → F.Num → Bool
  is_refused allow_zero x =
      not (F.is_finite x)
      || F.lt x F.zero
      || (not allow_zero && not (F.lt x F.zero) && not (F.lt F.zero x))

  abbrev pub checked_number : Bool → Option F.Num → Result EventError F.Num
  checked_number allow_zero none = err not_in_range
  checked_number allow_zero (some x) = raise_if (is_refused allow_zero x) not_in_range >> ok x

  abbrev pub from_integer : Bool → Option F.Num → Result EventError F.Num
  from_integer allow_zero none = err overflow
  from_integer allow_zero (some x) = checked_number allow_zero (some x)

  module _ (of_integer : ℤ → Option F.Num) where
    -- `_positive_number`
    abbrev pub positive_number : Bool → Option Value → Result EventError F.Num
    positive_number allow_zero (some (integer n)) = from_integer allow_zero (of_integer n)
    positive_number allow_zero (some (number x)) = checked_number allow_zero x
    positive_number allow_zero _ = err not_numeric

    module _ (parse_iso : Text → Option DateTime) (isoformat : ℕ → Text) (uuid5 : Text → Text)
        (show : Value → Text) where
      -- `str(value)`
      abbrev pub str_of : Value → Text
      str_of (string s) = s
      str_of v = show v

      abbrev pub identity : Text → Text → Text → ℕ → Text → Text → ℕ → Text
      identity source stream_id transport sequence symbol event_type exchange_time =
          source
          ++ text "|"
          ++ stream_id
          ++ text "|"
          ++ transport
          ++ text "|"
          ++ decimal sequence
          ++ text "|"
          ++ symbol
          ++ text "|"
          ++ event_type
          ++ text "|"
          ++ isoformat exchange_time

      -- The event's own identifier, unless it has none or null.
      abbrev pub event_id_of : Text → Option Value → Text
      event_id_of named none = uuid5 named
      event_id_of named (some null) = uuid5 named
      event_id_of named (some v) = strip (str_of v)

      -- The end of `from_mapping`, from the event's identifier on.
      unfoldable pub finish_event :
          Payload → ℕ → Text → Text → Text → Text → Text → ℕ → ℕ → Result EventError MarketEvent
      finish_event payload sequence source symbol event_type transport stream_id exchange_time
            receive_time =
          do
            let event_id =
                event_id_of
                  (identity source stream_id transport sequence symbol event_type exchange_time)
                  (lookup (text "event_id") payload)
            raise_if (is_empty event_id) empty_event_id
            let correlation_id =
                strip (str_of (value_or_text event_id (lookup (text "correlation_id") payload)))
            raise_if (is_empty correlation_id) empty_correlation_id
            price ← positive_number false (lookup (text "price") payload)
            quantity ← positive_number true (lookup (text "quantity") payload)
            ok (record {
              event_id = event_id;
              source = source;
              stream_id = stream_id;
              transport = transport;
              sequence_number = sequence;
              symbol = symbol;
              event_type = event_type;
              price = price;
              quantity = quantity;
              exchange_timestamp = exchange_time;
              received_timestamp = receive_time;
              correlation_id = correlation_id;
            })

      -- `MarketEvent.from_mapping`
      unfoldable pub from_mapping :
          Payload → Text → Option DateTime → ℕ → Result EventError MarketEvent
      from_mapping payload transport received_at now = do
        raise_if (any_of (lacks_field payload) required_names) fields_missing
        sequence ← sequence_of (lookup (text "sequence_number") payload)
        source ← required_text bad_string (text_in (lookup (text "source") payload))
        symbol ← required_text bad_string (text_in (lookup (text "symbol") payload))
        event_type ← required_text bad_string (text_in (lookup (text "event_type") payload))
        raise_if
            (not (contains (normalize transport) (text "TCP" ∷ text "TLS" ∷ text "MULTICAST" ∷ [])))
            bad_transport
        stream_id ←
            required_text bad_stream_id
              (text_in (some (value_or_text source (lookup (text "stream_id") payload))))
        exchange_time ← utc_datetime parse_iso (lookup (text "exchange_timestamp") payload)
        receive_time ← in_utc (received_or now received_at)
        raise_if (ltb receive_time exchange_time) received_early
        finish_event payload sequence source symbol event_type (normalize transport) stream_id
            exchange_time receive_time

  abbrev pub sequence_or_null : Option ℕ → Value
  sequence_or_null none = null
  sequence_or_null (some n) = integer (pos n)

  module _ (isoformat : ℕ → Text) (latency : ℕ → ℕ → F.Num) where
    -- `latency_ms`
    abbrev pub latency_ms : MarketEvent → Value
    latency_ms e = number (some (latency e.exchange_timestamp e.received_timestamp))

    -- `as_dict`
    unfoldable pub as_dict : MarketEvent → Payload
    as_dict e =
        (text "event_id", string e.event_id)
        ∷ (text "source", string e.source)
        ∷ (text "stream_id", string e.stream_id)
        ∷ (text "transport", string e.transport)
        ∷ (text "sequence_number", integer (pos e.sequence_number))
        ∷ (text "symbol", string e.symbol)
        ∷ (text "event_type", string e.event_type)
        ∷ (text "price", number (some e.price))
        ∷ (text "quantity", number (some e.quantity))
        ∷ (text "exchange_timestamp", string (isoformat e.exchange_timestamp))
        ∷ (text "received_timestamp", string (isoformat e.received_timestamp))
        ∷ (text "correlation_id", string e.correlation_id)
        ∷ (text "latency_ms", latency_ms e)
        ∷ []

    -- `as_journal_event`, of an observation's status
    unfoldable pub as_journal_event : MarketEvent → SequenceStatus → Text → Option ℕ → ℕ → Payload
    as_journal_event e status reason expected_sequence missing_count =
        (text "event_id", string e.event_id)
        ∷ (text "sequence_number", integer (pos e.sequence_number))
        ∷ (text "sequence_status", string (status_name status))
        ∷ (text "transport", string e.transport)
        ∷ (text "source", string e.source)
        ∷ (text "stream_id", string e.stream_id)
        ∷ (text "event_type", string e.event_type)
        ∷ (text "quantity", number (some e.quantity))
        ∷ (text "correlation_id", string e.correlation_id)
        ∷ (text "expected_sequence", sequence_or_null expected_sequence)
        ∷ (text "missing_count", integer (pos missing_count))
        ∷ (text "symbol", string e.symbol)
        ∷ (text "price", number (some e.price))
        ∷ (text "exchange_timestamp", string (isoformat e.exchange_timestamp))
        ∷ (text "received_timestamp", string (isoformat e.received_timestamp))
        ∷ (text "latency_ms", latency_ms e)
        ∷ (text "pct_change", null)
        ∷ (text "is_anomaly", boolean false)
        ∷ (text "reason", string reason)
        ∷ []
