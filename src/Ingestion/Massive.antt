-- ===== src/Ingestion/Massive.antt =====
-- reconciliation_engine/ingestion/massive.py: the limiter and the client. The network is what the requests of a session are answered, one after
-- another; times are numbers of a clock, and what `urlparse` says of a text is a parameter. `max_retries` is not negative.
pub mod Retries
mod Tests
use automated_reconciliation.Common.{
  ℕ, zero, suc, ◌+◌, ◌^◌, Bool, true, false, not, ◌&&◌, ◌||◌, ltb, leb, min, Option, none, some,
  List, [], ◌∷◌, ◌++◌, if◌then◌else◌, Text, text, contains, ◌==◌, nat_eq, list_eq, Result, ok, err,
  Action, bind, lift,
}

-- `wait` of `MassiveRateLimiter`: from the time of the next request, a reading of the clock, and one behind the sleep if there is one,
-- the time at which the request may go, and the time of the one after it.
unfoldable pub wait : ℕ → ℕ → ℕ → ℕ → ℕ × ℕ
wait minimum_interval next_request_at now woken =
    if ltb now next_request_at
    then (woken, woken + minimum_interval)
    else (now, now + minimum_interval)

-- The requests of a process, each with its two readings of the clock, and when they may go.
unfoldable pub wait_all : ℕ → ℕ → List (ℕ × ℕ) → List ℕ
wait_all minimum_interval next_request_at [] = []
wait_all minimum_interval next_request_at ((now, woken) ∷ readings) =
    let (at, next) = wait minimum_interval next_request_at now woken in
    at ∷ wait_all minimum_interval next readings

pub data MassiveError : Type 0 where
  bad_url no_reply request_failed not_an_object bad_results bad_retry_after : MassiveError
  http_error : ℕ → MassiveError

-- `RETRYABLE_STATUS_CODES`
abbrev pub retryable_status_codes : List ℕ
retryable_status_codes = 429 ∷ 500 ∷ 502 ∷ 503 ∷ 504 ∷ []

-- A Timeout or ConnectionError, another exception of the request, or a response: its status, its body if that is an object, and its header Retry-After, if it is
-- there: a number, or a text that `float` does not read.
pub data Reply (J : Type 0) : Type 0 where
  lost broken : Reply J
  responded : ℕ → Option J → Option (Option ℕ) → Reply J

-- What the client has done: its requests, and how long it slept.
pub record Session : Type 0 where
  pub sent : ℕ
  pub sleeps : List ℕ

-- `_url`, where `parse` gives the scheme and the host
unfoldable pub url_of : (Text → Text × Text) → Text → Result MassiveError Text
url_of parse [] = err bad_url
url_of parse (c ∷ rest) =
    if c == 47
    then ok (text "https://api.massive.com" ++ c ∷ rest)
    else if (parse (c ∷ rest)).0 == text "https" && (parse (c ∷ rest)).1 == text "api.massive.com"
    then ok (c ∷ rest)
    else err bad_url

module _ {J : Type 0} where
  -- A reply after which the client would try once more.
  abbrev pub is_retryable : Reply J → Bool
  is_retryable lost = true
  is_retryable broken = false
  is_retryable (responded status body retry_after) = contains status retryable_status_codes

  abbrev pub reads_delay : Reply J → Bool
  reads_delay (responded status body (some none)) = false
  reads_delay _ = true

  -- It does so if it has attempts left, and can read for how long to sleep.
  abbrev pub is_retried : Reply J → Bool
  is_retried reply = is_retryable reply && reads_delay reply

  -- How long it sleeps then.
  abbrev pub delay_after : ℕ → Reply J → ℕ
  delay_after attempt (responded status body (some (some seconds))) = seconds
  delay_after attempt _ = min (2 ^ attempt) 30

  abbrev pub object_of : Option J → Result MassiveError J
  object_of none = err not_an_object
  object_of (some payload) = ok payload

  -- What a reply means that ends the loop, and whether attempts were left then: an unreadable Retry-After, `raise_for_status`, or
  -- the body.
  unfoldable pub settled : Bool → Reply J → Result MassiveError J
  settled left lost = err no_reply
  settled left broken = err request_failed
  settled left (responded status body retry_after) =
      if left && contains status retryable_status_codes
      then err bad_retry_after
      else if leb 400 status && ltb status 600
      then err (http_error status)
      else object_of body

  module _ (network : Text → ℕ → Reply J) where
    abbrev pub slept : ℕ → Reply J → Session → Session
    slept attempt reply s = record s {
      sent = suc s.sent;
      sleeps = s.sleeps ++ delay_after attempt reply ∷ [];
    }

    -- The loop of `get_json`, with so many retries left, at some attempt.
    unfoldable pub attempts : ℕ → ℕ → Text → Action MassiveError Session J
    attempts zero attempt url s =
        (settled false (network url s.sent), record s { sent = suc s.sent })
    attempts (suc retries) attempt url s =
        let reply = network url s.sent in
        let rest = attempts retries (suc attempt) url (slept attempt reply s) in
        if is_retried reply then rest else (settled true reply, record s { sent = suc s.sent })

    -- `get_json`
    unfoldable pub get_json : (Text → Text × Text) → ℕ → Text → Action MassiveError Session J
    get_json parse max_retries path_or_url =
        bind (lift (url_of parse path_or_url)) λ url. attempts max_retries 0 url

-- A payload of a list: its results, if they are a list, with the objects among them, and the address of the next page, if there is one.
pub record Page (A : Type 0) : Type 0 where
  pub results : Option (List (Option A))
  pub next_url : Option Text

abbrev pub objects_in {ℓ} : {A : Type ℓ} → List (Option A) → List A
objects_in [] = []
objects_in (none ∷ rest) = objects_in rest
objects_in (some a ∷ rest) = a ∷ objects_in rest

abbrev pub results_of {ℓ} : {A : Type ℓ} → Option (List (Option A)) → Result MassiveError (List A)
results_of none = err bad_results
results_of (some results) = ok (objects_in results)

-- `str(value) if value else None`
abbrev pub next_page : Option Text → Option Text
next_page none = none
next_page (some []) = none
next_page (some (c ∷ s)) = some (c ∷ s)

module _ {A : Type 0} (network : Text → ℕ → Reply (Page A)) (parse : Text → Text × Text)
    (max_retries : ℕ) where
  -- `iter_results` up to the end of so many pages: what it has yielded, and the address that is still to be read, if there is one.
  unfoldable pub iter_results : ℕ → Option Text → Action MassiveError Session (List A × Option Text)
  iter_results pages none = lift (ok ([], none))
  iter_results zero (some url) = lift (ok ([], some url))
  iter_results (suc pages) (some url) = bind (get_json network parse max_retries url) λ page.
      bind (lift (results_of page.results)) λ first.
        bind (iter_results pages (next_page page.next_url))
          λ rest. lift (ok (first ++ rest.0, rest.1))
