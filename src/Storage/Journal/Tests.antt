-- ===== src/Storage/Journal/Tests.antt =====
-- `persist_realtime_event` on concrete events, and the theorem about it at an input.
use automated_reconciliation.Common.{
  ℕ, ltb, ◌==◌, ◌≡◌, refl, true, false, none, List, [], ◌∷◌, Text, text, lookup, Distinct, All, ok,
  err, nat_eq, list_eq,
}
use automated_reconciliation.Storage.Tables.{first_of, insert_rows}
use automated_reconciliation.Storage.Journal.{
  Driver, is_storable, row_of, not_storable, Persist, Event, required_fields, fields_missing,
  persist_realtime_event,
}
use automated_reconciliation.Storage.Journal.FirstWins.{
  IsComplete, rows_of, persist_all, is_answer, persist_all-lookup,
}

-- Zero is None, and a number under ten is converted to every type.
abbrev driver : Driver ℕ
driver = record { is_null = λ n. n == 0; converts = λ type n. ltb n 10 }

-- Every required field has the number of the event.
abbrev fields : List Text → ℕ → Event ℕ
fields [] n = []
fields (field ∷ names) n = (field, n) ∷ fields names n

abbrev event : ℕ → ℕ → Persist ℕ
event n now = record {
  event = fields required_fields n;
  trace_id = none;
  span_id = none;
  now = now;
}

abbrev partial_event : Persist ℕ
partial_event = record {
  event = (text "event_id", 1) ∷ [];
  trace_id = none;
  span_id = none;
  now = 4;
}

partial_rejected : (persist_realtime_event driver 0 partial_event []).0 ≡ err fields_missing
unfolding persist_realtime_event
partial_rejected = refl

-- A column that is NOT NULL takes no None, and none takes a value that is not converted.
none_refused : (persist_realtime_event driver 0 (event 0 5) []).0 ≡ err not_storable
unfolding persist_realtime_event is_storable row_of
none_refused = refl

large_refused : (persist_realtime_event driver 0 (event 11 5) []).0 ≡ err not_storable
unfolding persist_realtime_event is_storable row_of
large_refused = refl

abbrev calls : List (Persist ℕ × ℕ)
calls = (event 1 5, 1) ∷ (event 2 6, 2) ∷ (event 1 7, 1) ∷ []

answers : (persist_all driver 0 calls []).0 ≡ ok true ∷ ok true ∷ ok false ∷ []
unfolding persist_all persist_realtime_event insert_rows is_storable row_of
answers = refl

complete :
    (n now : ℕ)
    → is_storable driver (row_of 0 (event n now)) ≡ true
    → IsComplete driver 0 (event n now, n)
complete n now h = record { given = refl; id = refl; storable = h }

persist_all-lookup_example :
    (All (λ r. is_answer r ≡ true) (persist_all driver 0 calls []).0)
    × Distinct (persist_all driver 0 calls []).1
    × ((k : ℕ)
        → lookup k (persist_all driver 0 calls []).1 ≡ first_of none (lookup k (rows_of 0 calls)))
unfolding is_storable row_of
persist_all-lookup_example =
    persist_all-lookup driver 0 calls []
      (complete 1 5 refl, (complete 2 6 refl, (complete 1 7 refl, tt))) tt
