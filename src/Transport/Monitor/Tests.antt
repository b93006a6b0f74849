-- ===== src/Transport/Monitor/Tests.antt =====
-- A monitor on concrete events, and the theorem about it at an input.
use automated_reconciliation.Common.{
  ℕ, Bool, ltb, err, ◌≡◌, ◌↔◌, refl, sym, ap, ◌∙◌, true, false, none, some, List, [], ◌∷◌,
  if◌then◌else◌, Text, text, strip, Eq, ◌==◌, list_eq, nat_eq, decimal,
}
use automated_reconciliation.Common.Int.{ℤ, pos, negsuc}
use automated_reconciliation.Reconciliation.Tests.{units}
use automated_reconciliation.Storage.Journal.{
  ColumnType, bigint, not_storable, is_storable, row_of, persist_realtime_event,
}
use automated_reconciliation.Transport.Sequence.{SequenceTracker, observe}
use automated_reconciliation.Transport.Events.{
  Value, string, integer, number, boolean, null, instant, other, MarketEvent, as_journal_event,
}
use automated_reconciliation.Transport.Monitor.{
  Visit, Monitor, journal_failed, monitor_event, monitor_all,
}
use automated_reconciliation.Transport.Monitor.Journalled.{started}

-- A value as a list of numbers, to compare it.
abbrev encode : Value units → List ℕ
encode (string s) = 0 ∷ s
encode (integer (pos n)) = 1 ∷ n ∷ []
encode (integer (negsuc n)) = 2 ∷ n ∷ []
encode (number none) = 3 ∷ []
encode (number (some (pos n))) = 4 ∷ n ∷ []
encode (number (some (negsuc n))) = 5 ∷ n ∷ []
encode (boolean true) = 6 ∷ []
encode (boolean false) = 7 ∷ []
encode null = 8 ∷ []
encode (instant none) = 9 ∷ []
encode (instant (some t)) = 10 ∷ t ∷ []
encode (other s) = 11 ∷ s

abbrev head_of : List ℕ → ℕ
head_of [] = 0
head_of (n ∷ l) = n

abbrev decode : List ℕ → Value units
decode [] = null
decode (tag ∷ rest) =
    if tag == 0
    then string rest
    else if tag == 1
    then integer (pos (head_of rest))
    else if tag == 2
    then integer (negsuc (head_of rest))
    else if tag == 3
    then number none
    else if tag == 4
    then number (some (pos (head_of rest)))
    else if tag == 5
    then number (some (negsuc (head_of rest)))
    else if tag == 6
    then boolean true
    else if tag == 7
    then boolean false
    else if tag == 8
    then null
    else if tag == 9
    then instant none
    else if tag == 10
    then instant (some (head_of rest))
    else other rest

decode-encode : (v : Value units) → decode (encode v) ≡ v
decode-encode (string s) = refl
decode-encode (integer (pos n)) = refl
decode-encode (integer (negsuc n)) = refl
decode-encode (number none) = refl
decode-encode (number (some (pos n))) = refl
decode-encode (number (some (negsuc n))) = refl
decode-encode (boolean true) = refl
decode-encode (boolean false) = refl
decode-encode null = refl
decode-encode (instant none) = refl
decode-encode (instant (some t)) = refl
decode-encode (other s) = refl

value_beq_iff : (x y : Value units) → (list_eq.equals (encode x) (encode y) ≡ true) ↔ (x ≡ y)
value_beq_iff x y = (
  (λ h.
      sym (decode-encode x)
      ∙ ap decode ((list_eq.equals_iff (encode x) (encode y)).0 h)
      ∙ decode-encode y),
  (λ h. (list_eq.equals_iff (encode x) (encode y)).1 (ap encode h)),
)

abbrev value_eq : Eq (Value units)
value_eq = record {
  equals = λ x y. list_eq.equals (encode x) (encode y);
  equals_iff = value_beq_iff;
}

abbrev lag : ℕ → ℕ → ℤ
lag sent received = pos 1

abbrev event : Text → ℕ → MarketEvent units
event id n = record {
  event_id = id;
  source = text "NYSE";
  stream_id = text "A";
  transport = text "TCP";
  sequence_number = n;
  symbol = text "SPY";
  event_type = text "TRADE";
  price = pos 12;
  quantity = pos 0;
  exchange_timestamp = 2;
  received_timestamp = 9;
  correlation_id = id;
}

abbrev visit : ℕ → Visit units
visit n = record {
  event = event (text "a") n;
  trace_id = none;
  span_id = none;
  now = integer (pos n);
}

abbrev tracker : SequenceTracker
tracker = record { duplicate_window = 8; highest = []; recent = []; recent_counts = [] }

-- A BIGINT has 64 bits; the texts here are texts of dates, too.
abbrev every : ColumnType → Value units → Bool
every bigint (integer (pos n)) = ltb n 9223372036854775808
every type v = true

too_large :
    (monitor_all units ⦃e = value_eq⦄ every decimal lag true
      (visit 9223372036854775808 ∷ [])
      (started units ⦃e = value_eq⦄ every decimal lag true tracker [])).0
    ≡ err (journal_failed not_storable)
unfolding monitor_all monitor_event persist_realtime_event is_storable row_of as_journal_event
    observe strip
too_large = refl
