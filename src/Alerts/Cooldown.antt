-- ===== src/Alerts/Cooldown.antt =====
-- What the cool-down of `AlertDispatcher` promises over any sequence of calls.
use automated_reconciliation.Common.{
  ℕ, ◌+◌, ◌≤◌, ◌≡◌, refl, ◌∙◌, Bool, true, false, some, List, [], ◌∷◌, ltb, Text, Dict, lookup,
  insert, lookup-insert, ◌==◌, beq_refl, beq_eq, list_eq, nat_eq, All, arith, Bool-cases,
  Option-cases, inl, inr, length,
}
use automated_reconciliation.Alerts.{
  Alert, Dispatcher, new_dispatcher, is_suppressed, fingerprint, deliver, dispatch,
}

-- A call: the reading of the clock, whether a post is answered, and the alert.
abbrev pub Call : Type 0
Call = ℕ × Bool × Alert

-- Deliveries, the newest first, each with its time and its fingerprint.
abbrev pub Deliveries : Type 0
Deliveries = List (ℕ × Text)

-- Every earlier delivery with the same fingerprint is at least the cool-down older.
abbrev pub Spaced : ℕ → Deliveries → Type 0
Spaced cooldown [] = Unit
Spaced cooldown ((t, f) ∷ older) =
    All (λ d. d.1 ≡ f → d.0 + cooldown ≤ t) older × Spaced cooldown older

-- Every delivery is at most as late as what the dispatcher remembers for its fingerprint.
abbrev pub Remembers : Dict Text ℕ → Deliveries → Type 0
Remembers last_sent log =
    All (λ d. (last : ℕ) × (lookup d.1 last_sent ≡ some last) × (d.0 ≤ last)) log

abbrev pub add_delivery : Bool → ℕ × Text → Deliveries → Deliveries
add_delivery true d log = d ∷ log
add_delivery false d log = log

older_enough :
    (cooldown now : ℕ) (f : Text) (last_sent : Dict Text ℕ) (log : Deliveries)
    → Remembers last_sent log
    → is_suppressed cooldown now (lookup f last_sent) ≡ false
    → All (λ d. d.1 ≡ f → d.0 + cooldown ≤ now) log
older_enough cooldown now f last_sent [] r h = tt
older_enough cooldown now f last_sent ((t, g) ∷ log) r h = (
  (λ e. let (last, found, order) = r.0 in far last order (rw (← e, found) at h)),
  older_enough cooldown now f last_sent log r.1 h,
)
  where
    far : (last : ℕ) → t ≤ last → ltb now (last + cooldown) ≡ false → t + cooldown ≤ now
    far last order late = ground arith

Remembers-insert :
    (cooldown now : ℕ) (f : Text) (last_sent : Dict Text ℕ) (log : Deliveries)
    → Remembers last_sent log
    → All (λ d. d.1 ≡ f → d.0 + cooldown ≤ now) log
    → Remembers (insert f now last_sent) log
Remembers-insert cooldown now f last_sent [] r h = tt
Remembers-insert cooldown now f last_sent ((t, g) ∷ log) r h = (
  elim (Bool-cases (g == f)) [
    | inl same ↦ (
      now,
      lookup-insert g f now last_sent ∙ rw (same) refl,
      omega (arith, h.0 (beq_eq g f same)),
    )
    | inr other ↦ (r.0.0, lookup-insert g f now last_sent ∙ rw (other) r.0.1, r.0.2)
  ],
  Remembers-insert cooldown now f last_sent log r.1 h.1,
)

module _ (digest : Text → Dict Text Text → Text) where
  -- The calls of `dispatch` one after another, with the deliveries that they report.
  unfoldable pub dispatch_all : List Call → Dispatcher × Deliveries → Dispatcher × Deliveries
  dispatch_all [] (s, log) = (s, log)
  dispatch_all ((now, answered, a) ∷ calls) (s, log) =
      let sent = dispatch digest now answered a s in
      dispatch_all calls (sent.1, add_delivery sent.0 (now, fingerprint digest a) log)

  -- What holds between a dispatcher and the deliveries that it has reported.
  abbrev pub Accounts : ℕ → Dispatcher × Deliveries → Type 0
  Accounts cooldown (s, log) =
      (s.cooldown ≡ cooldown)
      × Spaced cooldown log
      × Remembers s.last_sent log
      × (length log + s.delivery_failures ≡ length s.posted)

  dispatch-Accounts :
      (cooldown now : ℕ) (answered : Bool) (a : Alert) (s : Dispatcher) (log : Deliveries)
      → Accounts cooldown (s, log)
      → let sent = dispatch digest now answered a s in
        Accounts cooldown (sent.1, add_delivery sent.0 (now, fingerprint digest a) log)
  unfolding dispatch deliver
  dispatch-Accounts cooldown now answered a s log (same, spaced, kept, count) =
      let f = fingerprint digest a in
      elim (Bool-cases (is_suppressed s.cooldown now (lookup f s.last_sent))) [
        | inl quiet ↦ rw (quiet, dispatch) (same, spaced, kept, count)
        | inr loud ↦ elim (Bool-cases s.has_webhook) [
          | inl hook ↦ elim (Bool-cases answered) [
            | inl came ↦
                let apart = older_enough cooldown now f s.last_sent log kept (rw same at loud) in
                rw (loud, dispatch, hook, came)
                  (
                    same,
                    (apart, spaced),
                    (
                      (now, lookup-insert f f now s.last_sent ∙ rw (beq_refl f) refl, omega arith),
                      Remembers-insert cooldown now f s.last_sent log kept apart,
                    ),
                    omega (arith, count),
                  )
            | inr lost ↦ rw (loud, dispatch, hook, lost) (same, spaced, kept, omega (arith, count))
          ]
          | inr none_ ↦ rw (loud, dispatch, none_) (same, spaced, kept, count)
        ]
      ]

  dispatch_all-Accounts :
      (cooldown : ℕ) (calls : List Call) (s : Dispatcher) (log : Deliveries)
      → Accounts cooldown (s, log)
      → Accounts cooldown (dispatch_all calls (s, log))
  unfolding dispatch_all
  dispatch_all-Accounts cooldown [] s log h = h
  dispatch_all-Accounts cooldown ((now, answered, a) ∷ calls) s log h =
      let sent = dispatch digest now answered a s in
      dispatch_all-Accounts cooldown calls sent.1
        (add_delivery sent.0 (now, fingerprint digest a) log)
        (dispatch-Accounts cooldown now answered a s log h)

  -- Over any calls of a new dispatcher, at whatever readings of the clock and with whatever answers, two deliveries that
  -- are reported for alerts with one fingerprint are at least the cool-down apart, and every alert that was posted was
  -- either reported as delivered or counted as a failure.
  pub dispatch_all-Spaced :
      (has_webhook : Bool) (cooldown : ℕ) (calls : List Call)
      → let (s, log) = dispatch_all calls (new_dispatcher has_webhook cooldown, []) in
        Spaced cooldown log × (length log + s.delivery_failures ≡ length s.posted)
  dispatch_all-Spaced has_webhook cooldown calls =
      let (_, spaced, _, count) =
        dispatch_all-Accounts cooldown calls (new_dispatcher has_webhook cooldown) []
          (refl, tt, tt, refl) in
      (spaced, count)

  -- A post that fails does not start the cool-down: if a dispatcher with a webhook does not suppress an alert, then after a
  -- failed post the same alert, at any later time, is delivered if the webhook answers.
  pub dispatch_retries :
      (now later : ℕ) (a : Alert) (s : Dispatcher)
      → s.has_webhook ≡ true
      → is_suppressed s.cooldown now (lookup (fingerprint digest a) s.last_sent) ≡ false
      → now ≤ later
      → let failed = dispatch digest now false a s in
        (failed.0 ≡ false) × ((dispatch digest later true a failed.1).0 ≡ true)
  unfolding dispatch deliver
  dispatch_retries now later a s hook loud order =
      elim (Option-cases (lookup (fingerprint digest a) s.last_sent)) [
        | inl fresh ↦ ground (arith, hook, loud, fresh)
        | inr (last, found) ↦ ground (arith, hook, loud, found, order)
      ]
