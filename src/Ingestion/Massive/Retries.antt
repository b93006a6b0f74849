-- ===== src/Ingestion/Massive/Retries.antt =====
-- How `get_json` ends, and how far apart the requests of a process are.
use automated_reconciliation.Common.{
  ℕ, zero, suc, ◌+◌, ◌≤◌, ◌<◌, ◌≡◌, ◌⊎◌, refl, ap, ◌∙◌, Bool, true, false, ltb, List, [], ◌∷◌,
  length, length-append, Text, Result, ok, arith, Bool-cases, inl, inr,
}
use automated_reconciliation.Ingestion.Massive.{
  wait, wait_all, MassiveError, Reply, Session, url_of, is_retried, settled, slept, delay_after,
  attempts, get_json,
}

module _ {J : Type 0} (network : Text → ℕ → Reply J) where
  -- What a call leaves that has sent so many requests more, with a sleep between each two.
  abbrev pub Sends : ℕ → Session → Session → Type 0
  Sends k s s' = (s'.sent ≡ s.sent + k) × (length s'.sleeps + 1 ≡ length s.sleeps + k)

  -- How the loop ends: after some replies, not more than there are retries, that are all tried again, with the next one, which is not,
  -- or which is the last.
  pub record Ends (retries : ℕ) (url : Text) (s : Session)
      (result : Result MassiveError J × Session) : Type 0 where
    pub count : ℕ
    pub bounded : count ≤ retries
    pub retried : (i : ℕ) → i < count → is_retried (network url (s.sent + i)) ≡ true
    pub decides : (count ≡ retries) ⊎ (is_retried (network url (s.sent + count)) ≡ false)
    pub answer : result.0 ≡ settled (ltb count retries) (network url (s.sent + count))
    pub sends : Sends (count + 1) s result.1

  at_once :
      (retries : ℕ) (url : Text) (s : Session)
      → (0 ≡ retries) ⊎ (is_retried (network url s.sent) ≡ false)
      → Ends retries url s
          (settled (ltb 0 retries) (network url s.sent), record s { sent = suc s.sent })
  at_once retries url s h =
      let same : s.sent + 0 ≡ s.sent = omega arith in
      record {
        count = 0;
        bounded = omega arith;
        retried = λ i before. absurd (omega (arith, before));
        decides = rw same h;
        answer = rw same refl;
        sends = (omega arith, omega arith);
      }

  one_more :
      (retries attempt : ℕ) (url : Text) (s : Session) (result : Result MassiveError J × Session)
      → is_retried (network url s.sent) ≡ true
      → Ends retries url (slept network attempt (network url s.sent) s) result
      → Ends (suc retries) url s result
  one_more retries attempt url s result here e =
      let shift : (i : ℕ) → suc s.sent + i ≡ s.sent + suc i = λ i. omega arith in
      let left : ltb e.count retries ≡ ltb (suc e.count) (suc retries) = ground arith in
      record {
        count = suc e.count;
        bounded = omega (arith, e.bounded);
        retried = λ i. tried i;
        decides = decided e.decides;
        answer =
            e.answer
            ∙ ap (λ (n : ℕ). settled (ltb e.count retries) (network url n)) (shift e.count)
            ∙ ap (λ (b : Bool). settled b (network url (s.sent + suc e.count))) left;
        sends = (
          omega (arith, e.sends.0),
          omega (
            arith,
            e.sends.1,
            length-append s.sleeps (delay_after attempt (network url s.sent) ∷ []),
          ),
        );
      }
    where
      tried : (i : ℕ) → i < suc e.count → is_retried (network url (s.sent + i)) ≡ true
      tried zero before = let same : s.sent + 0 ≡ s.sent = omega arith in rw same here
      tried (suc i) before =
          let same : suc s.sent + i ≡ s.sent + suc i = omega arith in
          rw (← same) (e.retried i (omega (arith, before)))

      decided :
          (e.count ≡ retries) ⊎ (is_retried (network url (suc s.sent + e.count)) ≡ false)
          → (suc e.count ≡ suc retries) ⊎ (is_retried (network url (s.sent + suc e.count)) ≡ false)
      decided (inl last) = inl (ap suc last)
      decided (inr final) =
          let same : suc s.sent + e.count ≡ s.sent + suc e.count = omega arith in
          inr (rw (← same) final)

  -- The loop ends, whatever the network answers.
  pub attempts-Ends :
      (retries attempt : ℕ) (url : Text) (s : Session)
      → Ends retries url s (attempts network retries attempt url s)
  unfolding attempts
  attempts-Ends zero attempt url s = at_once zero url s (inl refl)
  attempts-Ends (suc retries) attempt url s = elim (Bool-cases (is_retried (network url s.sent))) [
    | inr final ↦
        let left : ltb 0 (suc retries) ≡ true = ground arith in
        rw (final, attempts) (rw left at (at_once (suc retries) url s (inr final)))
    | inl here ↦
        let next = slept network attempt (network url s.sent) s in
        rw (here, attempts)
          (one_more retries attempt url s (attempts network retries (suc attempt) url next) here
            (attempts-Ends retries (suc attempt) url next))
  ]

  -- Whatever the network answers, a call of `get_json` for an accepted address ends: there are some replies, at most `max_retries`, that are
  -- all tried again, and the next one, which is not or is the last, gives the result; one request was sent for each of them, with
  -- one sleep between each two.
  pub get_json-Ends :
      (parse : Text → Text × Text) (max_retries : ℕ) (path_or_url url : Text) (s : Session)
      → url_of parse path_or_url ≡ ok url
      → Ends max_retries url s (get_json network parse max_retries path_or_url s)
  unfolding get_json
  get_json-Ends parse max_retries path_or_url url s accepted =
      rw accepted (attempts-Ends max_retries 0 url s)

-- Each sleep of the limiter lasts until the time for which it was asked, as `time.sleep` does.
abbrev pub Wakes : ℕ → ℕ → List (ℕ × ℕ) → Type 0
Wakes interval next [] = Unit
Wakes interval next ((now, woken) ∷ readings) =
    (next ≤ woken) × Wakes interval (wait interval next now woken).1 readings

-- Times, the first of which is not before some time, and each later one not before the interval after the one before it.
abbrev pub AreSpaced : ℕ → ℕ → List ℕ → Type 0
AreSpaced interval next [] = Unit
AreSpaced interval next (at ∷ rest) = (next ≤ at) × AreSpaced interval (at + interval) rest

-- Whatever the clock reads, the requests that the limiter lets go are at least its interval apart, if no sleep ends early.
pub wait_all-AreSpaced :
    (interval next : ℕ) (readings : List (ℕ × ℕ))
    → Wakes interval next readings
    → AreSpaced interval next (wait_all interval next readings)
unfolding wait_all wait
wait_all-AreSpaced interval next [] h = tt
wait_all-AreSpaced interval next ((now, woken) ∷ readings) h = elim (Bool-cases (ltb now next)) [
  | inl early ↦
      rw early (h.0, wait_all-AreSpaced interval (woken + interval) readings (rw early at h.1))
  | inr late ↦
      rw late (
        ground (arith, late),
        wait_all-AreSpaced interval (now + interval) readings (rw late at h.1),
      )
]
