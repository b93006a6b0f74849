-- ===== src/Transport/Events/RoundTrip.antt =====
-- An event that is written with `as_dict` is read back by `from_mapping`.
use automated_reconciliation.Common.{ℕ, ◌≡◌, refl, Option, some, Text, nat_eq, list_eq, ok}
use automated_reconciliation.Common.Int.{ℤ}
use automated_reconciliation.Common.Float.{Float}
use automated_reconciliation.Transport.Events.{
  EventError, DateTime, replace_z, required_text, Value, Payload, MarketEvent, bad_string,
  bad_stream_id, finish_event, from_mapping, as_dict,
}
use automated_reconciliation.Transport.Events.Normal.{
  IsNormal, IsEvent, IsIdentifier, from_mapping-IsEvent,
}

required_text-of_normal : (e : EventError) (s : Text) → IsNormal s → required_text e (some s) ≡ ok s
required_text-of_normal e s (same, some_) = rw (some_, same) refl

module _ (F : Float) (of_integer : ℤ → Option F.Num) (parse_iso : Text → Option DateTime)
    (isoformat : ℕ → Text) where
  -- `datetime.fromisoformat` reads what `isoformat` writes of a moment in UTC.
  abbrev pub ReadsBack : Type 0
  ReadsBack = (t : ℕ) → parse_iso (replace_z (isoformat t)) ≡ some (some t)

  module _ (uuid5 : Text → Text) (show : Value F → Text) (latency : ℕ → ℕ → F.Num) where
    from_mapping-of_event :
        ReadsBack
        → (e : MarketEvent F) (now : ℕ) → IsEvent F e
        → from_mapping F of_integer parse_iso isoformat uuid5 show
            (as_dict F isoformat latency e)
            e.transport
            (some (some e.received_timestamp))
            now
          ≡ ok e
    unfolding from_mapping finish_event as_dict
    from_mapping-of_event reads e now good =
        rw
          (
            required_text-of_normal bad_string e.source good.source,
            required_text-of_normal bad_string e.symbol good.symbol,
            required_text-of_normal bad_string e.event_type good.event_type,
            good.transport.0,
            good.transport.1,
            required_text-of_normal bad_stream_id e.stream_id good.stream_id,
            reads e.exchange_timestamp,
            good.in_order,
            good.event_id.0,
            good.event_id.1,
            good.correlation_id.0,
            good.correlation_id.1,
            good.price,
            good.quantity,
          )
          refl

    -- Whatever payload `from_mapping` has accepted, the dictionary that `as_dict` makes of the event is accepted again, with the same
    -- transport and time of receipt, and gives the same event. `datetime.fromisoformat` has to read what `isoformat` writes, and
    -- `uuid5` to give a text without white space.
    pub from_mapping-as_dict :
        ReadsBack
        → IsIdentifier F of_integer parse_iso isoformat uuid5 show
        → (payload : Payload F) (transport : Text) (received_at : Option DateTime) (now later : ℕ)
          (e : MarketEvent F)
        → from_mapping F of_integer parse_iso isoformat uuid5 show payload transport received_at now
          ≡ ok e
        → from_mapping F of_integer parse_iso isoformat uuid5 show
            (as_dict F isoformat latency e)
            e.transport
            (some (some e.received_timestamp))
            later
          ≡ ok e
    from_mapping-as_dict reads names payload transport received_at now later e h =
        from_mapping-of_event reads e later (
          from_mapping-IsEvent F of_integer parse_iso isoformat uuid5 show names payload transport
            received_at now e h)
