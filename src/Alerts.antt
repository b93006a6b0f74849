-- ===== src/Alerts.antt =====
-- `Alert` and `AlertDispatcher` of reconciliation_engine/alerts.py. The digest of a JSON text, the readings of the clock and the
-- answers of the webhook are parameters; a time is a whole number of the clock's units.
pub mod Cooldown
mod Tests
use automated_reconciliation.Common.{
  ℕ, suc, ◌+◌, Bool, true, false, ◌&&◌, Option, none, some, List, [], ◌∷◌, if◌then◌else◌, ltb, Text,
  text, Dict, lookup, insert, list_eq, nat_eq,
}

pub record Alert : Type 0 where
  pub rule : Text
  pub severity : Text
  pub summary : Text
  pub attributes : Dict Text Text

-- The state of an `AlertDispatcher`, and the alerts that it has posted, the newest first.
pub record Dispatcher : Type 0 where
  pub has_webhook : Bool
  pub cooldown : ℕ
  pub last_sent : Dict Text ℕ
  pub delivery_failures : ℕ
  pub posted : List Alert

-- `AlertDispatcher(webhook_url, cooldown_seconds=...)`
abbrev pub new_dispatcher : Bool → ℕ → Dispatcher
new_dispatcher has_webhook cooldown = record {
  has_webhook = has_webhook;
  cooldown = cooldown;
  last_sent = [];
  delivery_failures = 0;
  posted = [];
}

-- One entry of the dictionary comprehension of `fingerprint`.
abbrev pub keep_attribute : Text → Option Text → Dict Text Text → Dict Text Text
keep_attribute key none rest = rest
keep_attribute key (some value) rest = (key, value) ∷ rest

abbrev pub identity_attributes : Dict Text Text → Dict Text Text
identity_attributes attributes =
    keep_attribute (text "provider") (lookup (text "provider") attributes)
      (keep_attribute (text "instrument_type") (lookup (text "instrument_type") attributes) [])

-- `now - last_sent < self.cooldown_seconds`, for a last time that there may not be
abbrev pub is_suppressed : ℕ → ℕ → Option ℕ → Bool
is_suppressed cooldown now none = false
is_suppressed cooldown now (some last) = ltb now (last + cooldown)

module _ (digest : Text → Dict Text Text → Text) where
  -- `fingerprint`
  unfoldable pub fingerprint : Alert → Text
  fingerprint a = digest a.rule (identity_attributes a.attributes)

  -- The delivery: without a webhook nothing is posted; a post is answered, or raises RequestException.
  unfoldable pub deliver : ℕ → Bool → Alert → Dispatcher → Bool × Dispatcher
  deliver now answered a s =
      if s.has_webhook
      then if answered
        then (
          true,
          record s { last_sent = insert (fingerprint a) now s.last_sent; posted = a ∷ s.posted },
        )
        else (
          false,
          record s { delivery_failures = suc s.delivery_failures; posted = a ∷ s.posted },
        )
      else (false, s)

  -- `dispatch`, at a reading of the clock and with the answer that a post would have
  unfoldable pub dispatch : ℕ → Bool → Alert → Dispatcher → Bool × Dispatcher
  dispatch now answered a s =
      if is_suppressed s.cooldown now (lookup (fingerprint a) s.last_sent)
      then (false, s)
      else deliver now answered a s
