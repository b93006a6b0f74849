-- ===== src/Ingestion/Massive/Tests.antt =====
-- The client against a concrete network, and the theorem about it at an input.
use automated_reconciliation.Common.{
  ℕ, zero, suc, ◌≡◌, refl, none, some, [], ◌∷◌, Text, text, ok, err, nat_eq, list_eq,
}
use automated_reconciliation.Ingestion.Massive.{
  bad_url, bad_retry_after, http_error, Reply, lost, responded, Session, Page, url_of, settled,
  attempts, get_json, wait, wait_all, iter_results,
}
use automated_reconciliation.Ingestion.Massive.Retries.{Ends, get_json-Ends}

abbrev no_parts : Text → Text × Text
no_parts s = (text "http", [])

abbrev idle : Session
idle = record { sent = 0; sleeps = [] }

-- Lost once, then too many requests, then an answer.
abbrev network : Text → ℕ → Reply ℕ
network url zero = lost
network url (suc zero) = responded 429 none (some (some 7))
network url (suc (suc n)) = responded 200 (some 5) none

recovers :
    get_json network no_parts 3 (text "/v3") idle ≡ (ok 5, record { sent = 3; sleeps = 1 ∷ 7 ∷ [] })
unfolding get_json url_of attempts settled
recovers = refl

gives_up : (get_json network no_parts 1 (text "/v3") idle).0 ≡ err (http_error 429)
unfolding get_json url_of attempts settled
gives_up = refl

-- A date in Retry-After is not read.
abbrev unreadable : Text → ℕ → Reply ℕ
unreadable url n = responded 503 none (some none)

unread : (get_json unreadable no_parts 1 (text "/v3") idle).0 ≡ err bad_retry_after
unfolding get_json url_of attempts settled
unread = refl

elsewhere : (get_json network no_parts 1 (text "http://x") idle).0 ≡ err bad_url
unfolding get_json url_of
elsewhere = refl

spaced : wait_all 10 0 ((3, 0) ∷ (4, 13) ∷ (40, 0) ∷ []) ≡ 3 ∷ 13 ∷ 40 ∷ []
unfolding wait_all wait
spaced = refl

abbrev pages : Text → ℕ → Reply (Page ℕ)
pages url zero =
    responded 200
      (some (record { results = some (some 1 ∷ none ∷ []); next_url = some (text "/b") })) none
pages url (suc n) =
    responded 200 (some (record { results = some (some 2 ∷ []); next_url = none })) none

two_pages : (iter_results pages no_parts 0 5 (some (text "/a")) idle).0 ≡ ok (1 ∷ 2 ∷ [], none)
unfolding iter_results get_json url_of attempts settled
two_pages = refl

get_json-Ends_example :
    Ends network 3
      (text "https://api.massive.com/v3")
      idle
      (get_json network no_parts 3 (text "/v3") idle)
unfolding url_of
get_json-Ends_example =
    get_json-Ends network no_parts 3 (text "/v3") (text "https://api.massive.com/v3") idle refl
