-- ===== src/Transport/Events/Tests.antt =====
-- Events of concrete payloads, and the theorems about them at an input.
use automated_reconciliation.Common.{
  ℕ, zero, suc, ap, ◌≡◌, refl, Option, none, some, [], ◌∷◌, Text, text, strip, normalize, Result,
  ok, err, nat_eq, list_eq, lstrip, rstrip, to_upper,
}
use automated_reconciliation.Common.Int.{ℤ, pos}
use automated_reconciliation.Reconciliation.Tests.{units}
use automated_reconciliation.Transport.Events.{
  EventError, received_early, overflow, DateTime, replace_z, Value, string, integer, number, null,
  Payload, MarketEvent, is_refused, finish_event, from_mapping, as_dict,
}
use automated_reconciliation.Transport.Events.Normal.{IsIdentifier}
use automated_reconciliation.Transport.Events.RoundTrip.{ReadsBack, from_mapping-as_dict}

-- A moment is its number of letters A.
abbrev write_time : ℕ → Text
write_time zero = []
write_time (suc n) = 65 ∷ write_time n

abbrev count_letters : Text → ℕ
count_letters [] = 0
count_letters (c ∷ s) = suc (count_letters s)

abbrev read_time : Text → Option DateTime
read_time s = some (some (count_letters s))

abbrev one_name : Text → Text
one_name s = text "id"

abbrev show_value : Value units → Text
show_value v = text "value"

abbrev small : ℤ → Option ℤ
small n = some n

abbrev too_large : ℤ → Option ℤ
too_large n = none

abbrev lag : ℕ → ℕ → ℤ
lag sent received = pos 1

abbrev payload : Payload units
payload =
    (text "source", string (text " nyse "))
    ∷ (text "sequence_number", integer (pos 7))
    ∷ (text "symbol", string (text "spy"))
    ∷ (text "event_type", string (text "trade"))
    ∷ (text "price", integer (pos 12))
    ∷ (text "quantity", number (some (pos 0)))
    ∷ (text "exchange_timestamp", string (text "AA"))
    ∷ (text "event_id", null)
    ∷ []

abbrev receive : (ℤ → Option ℤ) → Option DateTime → Result EventError (MarketEvent units)
receive of_integer received =
    from_mapping units of_integer read_time write_time one_name show_value payload (text "tcp")
      received 9

abbrev event : MarketEvent units
event = record {
  event_id = text "id";
  source = text "NYSE";
  stream_id = text "NYSE";
  transport = text "TCP";
  sequence_number = 7;
  symbol = text "SPY";
  event_type = text "TRADE";
  price = pos 12;
  quantity = pos 0;
  exchange_timestamp = 2;
  received_timestamp = 9;
  correlation_id = text "id";
}

accepted : receive small none ≡ ok event
unfolding from_mapping finish_event is_refused normalize strip lstrip rstrip to_upper
accepted = refl

before_its_time : receive small (some (some 1)) ≡ err received_early
unfolding from_mapping finish_event is_refused normalize strip lstrip rstrip to_upper
before_its_time = refl

-- An integer that is no float64 is neither accepted nor refused: `float` raises.
beyond_float : receive too_large none ≡ err overflow
unfolding from_mapping finish_event is_refused normalize strip lstrip rstrip to_upper
beyond_float = refl

named : IsIdentifier units small read_time write_time one_name show_value
unfolding strip lstrip rstrip
named s = (refl, refl)

letters : (n : ℕ) → count_letters (replace_z (write_time n)) ≡ n
letters zero = refl
letters (suc n) = ap suc (letters n)

counted : ReadsBack units small read_time write_time
counted t = ap (λ (n : ℕ). some (some n)) (letters t)

from_mapping-as_dict_example :
    from_mapping units small read_time write_time one_name show_value
      (as_dict units write_time lag event)
      (text "TCP")
      (some (some 9))
      30
    ≡ ok event
from_mapping-as_dict_example =
    from_mapping-as_dict units small read_time write_time one_name show_value lag counted named
      payload (text "tcp") none 9 30 event accepted
