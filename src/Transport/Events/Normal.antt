-- ===== src/Transport/Events/Normal.antt =====
-- What every event of `MarketEvent.from_mapping` satisfies.
use automated_reconciliation.Common.{
  ℕ, ◌≡◌, ◌∙◌, Bool, true, false, not, ltb, Option, none, some, [], ◌∷◌, Text, text, is_empty,
  strip, normalize, contains, any_of, strip_twice, normalize_twice, strip-normalize, nat_eq,
  list_eq, lookup, ok, raise_if, >>=-eq-ok, arith,
}
use automated_reconciliation.Common.Int.{ℤ}
use automated_reconciliation.Common.Float.{Float}
use automated_reconciliation.Reconciliation.Validation.Consistent.{guard-eq-ok}
use automated_reconciliation.Transport.Events.{
  EventError, fields_missing, bad_string, bad_transport, bad_stream_id, received_early,
  empty_event_id, empty_correlation_id, not_in_range, DateTime, required_names, required_text,
  Value, string, integer, number, boolean, null, instant, other, Payload, MarketEvent, lacks_field,
  text_in, sequence_of, value_or_text, in_utc, utc_datetime, is_refused, checked_number,
  from_integer, positive_number, str_of, identity, event_id_of, received_or, finish_event,
  from_mapping,
}

-- A normalized text, with something in it.
abbrev pub IsNormal : Text → Type 0
IsNormal s = (normalize s ≡ s) × (is_empty (strip s) ≡ false)

-- A trimmed text that is not empty.
abbrev pub IsTrimmed : Text → Type 0
IsTrimmed s = (strip s ≡ s) × (is_empty s ≡ false)

required_text-IsNormal :
    (e : EventError) (o : Option Text) (s : Text) → required_text e o ≡ ok s → IsNormal s
required_text-IsNormal e none s h = cc
required_text-IsNormal e (some t) s h =
    let (_, checked, last) = >>=-eq-ok (raise_if (is_empty (strip t)) e) _ h in
    let same : normalize t ≡ s = cc in
    rw (← same) (normalize_twice t, strip-normalize t ∙ guard-eq-ok (is_empty (strip t)) e checked)

module _ (F : Float) where
  pub record IsEvent (e : MarketEvent F) : Type 0 where
    pub source : IsNormal e.source
    pub stream_id : IsNormal e.stream_id
    pub symbol : IsNormal e.symbol
    pub event_type : IsNormal e.event_type
    pub transport :
        (normalize e.transport ≡ e.transport)
        × (contains e.transport (text "TCP" ∷ text "TLS" ∷ text "MULTICAST" ∷ []) ≡ true)
    pub event_id : IsTrimmed e.event_id
    pub correlation_id : IsTrimmed e.correlation_id
    pub price : is_refused F false e.price ≡ false
    pub quantity : is_refused F true e.quantity ≡ false
    pub in_order : ltb e.received_timestamp e.exchange_timestamp ≡ false

  checked_number-accepts :
      (allow_zero : Bool) (o : Option F.Num) (x : F.Num)
      → checked_number F allow_zero o ≡ ok x
      → is_refused F allow_zero x ≡ false
  checked_number-accepts allow_zero none x h = cc
  checked_number-accepts allow_zero (some y) x h =
      let (_, checked, last) = >>=-eq-ok (raise_if (is_refused F allow_zero y) not_in_range) _ h in
      let same : y ≡ x = cc in
      rw (← same) (guard-eq-ok (is_refused F allow_zero y) not_in_range checked)

  module _ (of_integer : ℤ → Option F.Num) where
    positive_number-accepts :
        (allow_zero : Bool) (o : Option (Value F)) (x : F.Num)
        → positive_number F of_integer allow_zero o ≡ ok x
        → is_refused F allow_zero x ≡ false
    positive_number-accepts allow_zero none x h = cc
    positive_number-accepts allow_zero (some (string s)) x h = cc
    positive_number-accepts allow_zero (some (integer n)) x h =
        from_integer_accepts (of_integer n) h
      where
        from_integer_accepts :
            (o : Option F.Num)
            → from_integer F allow_zero o ≡ ok x
            → is_refused F allow_zero x ≡ false
        from_integer_accepts none h = cc
        from_integer_accepts (some y) h = checked_number-accepts allow_zero (some y) x h
    positive_number-accepts allow_zero (some (number y)) x h =
        checked_number-accepts allow_zero y x h
    positive_number-accepts allow_zero (some (boolean b)) x h = cc
    positive_number-accepts allow_zero (some null) x h = cc
    positive_number-accepts allow_zero (some (instant d)) x h = cc
    positive_number-accepts allow_zero (some (other t)) x h = cc

    module _ (parse_iso : Text → Option DateTime) (isoformat : ℕ → Text) (uuid5 : Text → Text)
        (show : Value F → Text) where
      -- `uuid5` gives a text without white space, as its documentation says.
      abbrev pub IsIdentifier : Type 0
      IsIdentifier = (s : Text) → IsTrimmed (uuid5 s)

      event_id_trimmed :
          IsIdentifier
          → (named : Text) (o : Option (Value F))
          → strip (event_id_of F of_integer parse_iso isoformat uuid5 show named o)
            ≡ event_id_of F of_integer parse_iso isoformat uuid5 show named o
      event_id_trimmed good named none = (good named).0
      event_id_trimmed good named (some (string s)) = strip_twice s
      event_id_trimmed good named (some (integer n)) = strip_twice (show (integer n))
      event_id_trimmed good named (some (number x)) = strip_twice (show (number x))
      event_id_trimmed good named (some (boolean b)) = strip_twice (show (boolean b))
      event_id_trimmed good named (some null) = (good named).0
      event_id_trimmed good named (some (instant d)) = strip_twice (show (instant d))
      event_id_trimmed good named (some (other t)) = strip_twice (show (other t))

      finish_event-IsEvent :
          IsIdentifier
          → (payload : Payload F) (sequence : ℕ)
            (source symbol event_type transport stream_id : Text) (exchange_time receive_time : ℕ)
            (e : MarketEvent F)
          → IsNormal source
          → IsNormal symbol
          → IsNormal event_type
          → IsNormal stream_id
          → (normalize transport ≡ transport)
            × (contains transport (text "TCP" ∷ text "TLS" ∷ text "MULTICAST" ∷ []) ≡ true)
          → ltb receive_time exchange_time ≡ false
          → finish_event F of_integer parse_iso isoformat uuid5 show payload sequence source symbol
              event_type transport stream_id exchange_time receive_time
            ≡ ok e
          → IsEvent e
      unfolding finish_event
      finish_event-IsEvent good payload sequence source symbol event_type transport stream_id
            exchange_time receive_time e a b c d f g h =
          let named =
            identity F of_integer parse_iso isoformat uuid5 show source stream_id transport sequence
              symbol event_type exchange_time in
          let event_id =
            event_id_of F of_integer parse_iso isoformat uuid5 show named
              (lookup (text "event_id") payload) in
          let correlation_id = strip (
            str_of F of_integer parse_iso isoformat uuid5 show
              (value_or_text F event_id (lookup (text "correlation_id") payload))) in
          let (_, has_id, h₁) = >>=-eq-ok (raise_if (is_empty event_id) empty_event_id) _ h in
          let (_, has_correlation, h₂) =
            >>=-eq-ok (raise_if (is_empty correlation_id) empty_correlation_id) _ h₁ in
          let (price, p, h₃) =
            >>=-eq-ok (positive_number F of_integer false (lookup (text "price") payload)) _ h₂ in
          let (quantity, q, h₄) =
            >>=-eq-ok (positive_number F of_integer true (lookup (text "quantity") payload)) _ h₃ in
          let made : record {
            event_id = event_id;
            source = source;
            stream_id = stream_id;
            transport = transport;
            sequence_number = sequence;
            symbol = symbol;
            event_type = event_type;
            price = price;
            quantity = quantity;
            exchange_timestamp = exchange_time;
            received_timestamp = receive_time;
            correlation_id = correlation_id;
          }
              ≡ e =
            cc in
          rw (← made) (record {
            source = a;
            stream_id = d;
            symbol = b;
            event_type = c;
            transport = f;
            event_id = (
              event_id_trimmed good named (lookup (text "event_id") payload),
              guard-eq-ok (is_empty event_id) empty_event_id has_id,
            );
            correlation_id = (
              strip_twice (
                  str_of F of_integer parse_iso isoformat uuid5 show
                    (value_or_text F event_id (lookup (text "correlation_id") payload))),
              guard-eq-ok (is_empty correlation_id) empty_correlation_id has_correlation,
            );
            price = positive_number-accepts false (lookup (text "price") payload) price p;
            quantity = positive_number-accepts true (lookup (text "quantity") payload) quantity q;
            in_order = g;
          })

      pub from_mapping-IsEvent :
          IsIdentifier
          → (payload : Payload F) (transport : Text) (received_at : Option DateTime) (now : ℕ)
            (e : MarketEvent F)
          → from_mapping F of_integer parse_iso isoformat uuid5 show payload transport received_at
              now
            ≡ ok e
          → IsEvent e
      unfolding from_mapping
      from_mapping-IsEvent good payload transport received_at now e h =
          let (_, _, h₁) =
            >>=-eq-ok (raise_if (any_of (lacks_field F payload) required_names) fields_missing) _
              h in
          let (sequence, _, h₂) =
            >>=-eq-ok (sequence_of F (lookup (text "sequence_number") payload)) _ h₁ in
          let (source, a, h₃) =
            >>=-eq-ok (required_text bad_string (text_in F (lookup (text "source") payload))) _
              h₂ in
          let (symbol, b, h₄) =
            >>=-eq-ok (required_text bad_string (text_in F (lookup (text "symbol") payload))) _
              h₃ in
          let (event_type, c, h₅) =
            >>=-eq-ok (required_text bad_string (text_in F (lookup (text "event_type") payload))) _
              h₄ in
          let (_, d, h₆) =
            >>=-eq-ok
              (raise_if
                (not (
                  contains (normalize transport) (text "TCP" ∷ text "TLS" ∷ text "MULTICAST" ∷ [])))
                bad_transport)
              _ h₅ in
          let (stream_id, f, h₇) =
            >>=-eq-ok
              (required_text bad_stream_id
                (text_in F (some (value_or_text F source (lookup (text "stream_id") payload)))))
              _ h₆ in
          let (exchange_time, _, h₈) =
            >>=-eq-ok (utc_datetime F parse_iso (lookup (text "exchange_timestamp") payload)) _
              h₇ in
          let (receive_time, _, h₉) = >>=-eq-ok (in_utc (received_or now received_at)) _ h₈ in
          let (_, g, k) =
            >>=-eq-ok (raise_if (ltb receive_time exchange_time) received_early) _ h₉ in
          let known =
            guard-eq-ok
              (not
                (contains (normalize transport) (text "TCP" ∷ text "TLS" ∷ text "MULTICAST" ∷ [])))
              bad_transport d in
          finish_event-IsEvent good payload sequence source symbol event_type (normalize transport)
            stream_id exchange_time receive_time e
            (required_text-IsNormal bad_string (text_in F (lookup (text "source") payload)) source
              a)
            (required_text-IsNormal bad_string (text_in F (lookup (text "symbol") payload)) symbol
              b)
            (required_text-IsNormal bad_string (text_in F (lookup (text "event_type") payload))
              event_type c)
            (required_text-IsNormal bad_stream_id
              (text_in F (some (value_or_text F source (lookup (text "stream_id") payload))))
              stream_id f)
            (normalize_twice transport, ground (arith, known))
            (guard-eq-ok (ltb receive_time exchange_time) received_early g) k
