-- ===== src/Alerts/Tests.antt =====
-- `AlertDispatcher` on concrete alerts, and the theorems about it at an input.
use automated_reconciliation.Common.{
  ℕ, ◌+◌, ◌≡◌, refl, true, false, List, [], ◌∷◌, ◌++◌, Text, text, Dict, length,
}
use automated_reconciliation.Alerts.{Alert, new_dispatcher, dispatch, deliver, fingerprint}
use automated_reconciliation.Alerts.Cooldown.{
  Call, Spaced, Deliveries, dispatch_all, dispatch_all-Spaced,
}

abbrev digest : Text → Dict Text Text → Text
digest rule [] = rule
digest rule ((key, value) ∷ attributes) = digest (rule ++ key ++ value) attributes

abbrev alert : Text → Alert
alert provider = record {
  rule = text "provider_latency";
  severity = text "warning";
  summary = text "slow";
  attributes = (text "provider", provider) ∷ [];
}

-- Delivered, suppressed, delivered for another provider, failed, and delivered again.
abbrev calls : List Call
calls =
    (10, true, alert (text "YAHOO"))
    ∷ (20, true, alert (text "YAHOO"))
    ∷ (21, true, alert (text "ALPACA"))
    ∷ (910, false, alert (text "YAHOO"))
    ∷ (911, true, alert (text "YAHOO"))
    ∷ []

abbrev times_of : Deliveries → List ℕ
times_of [] = []
times_of ((t, f) ∷ log) = t ∷ times_of log

delivered_times :
    times_of (dispatch_all digest calls (new_dispatcher true 900, [])).1 ≡ 911 ∷ 21 ∷ 10 ∷ []
unfolding dispatch_all dispatch deliver fingerprint
delivered_times = refl

dispatch_all-Spaced_example :
    let (s, log) = dispatch_all digest calls (new_dispatcher true 900, []) in
    Spaced 900 log × (length log + s.delivery_failures ≡ length s.posted)
dispatch_all-Spaced_example = dispatch_all-Spaced digest true 900 calls
