-- ===== src/Batch/Notifications.antt =====
-- `send_run_notification` of reconciliation_engine/notifications.py. Of the surroundings, the webhook is given: none, or what it
-- answers. What is printed, logged and counted is left out.
use automated_reconciliation.Common.{
  ℕ, Bool, true, false, Option, none, some, List, [], ◌∷◌, ◌++◌, Text, text, contains, nat_eq,
  list_eq, ok, err, Action, if◌then◌else◌,
}

-- The keys of a summary that the notification reads, and the others of `main`.
pub record Summary : Type 0 where
  pub run_id : Text
  pub status : Text
  pub break_count : ℕ
  pub symbols : List Text
  pub control_date : Text
  pub already_completed : Option Bool

-- A message that was posted to the webhook.
pub record Post : Type 0 where
  pub run_id : Text
  pub status : Text
  pub break_count : ℕ
  pub delivered : Bool

-- RuntimeError("Run notification delivery failed")
pub data NotificationError : Type 0 where
  delivery_failed : NotificationError

abbrev pub is_notified : Text → Bool
is_notified status = contains status (text "FAILED" ∷ text "SUCCESS_WITH_BREAKS" ∷ [])

abbrev pub post_of : Summary → Bool → Post
post_of s delivered = record {
  run_id = s.run_id;
  status = s.status;
  break_count = s.break_count;
  delivered = delivered;
}

abbrev pub post_to : Option Bool → Summary → Action NotificationError (List Post) (Unit {0})
post_to none s posts = (ok tt, posts)
post_to (some true) s posts = (ok tt, posts ++ post_of s true ∷ [])
post_to (some false) s posts = (err delivery_failed, posts ++ post_of s false ∷ [])

-- `send_run_notification`
unfoldable pub send_run_notification :
    Option Bool → Summary → Action NotificationError (List Post) (Unit {0})
send_run_notification webhook s posts =
    let posted = post_to webhook s posts in if is_notified s.status then posted else (ok tt, posts)
