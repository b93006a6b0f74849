-- ===== src/Storage/Manifest/Tests.antt =====
-- The manifest on concrete partitions, and the theorems about it at an input.
use automated_reconciliation.Common.{
  ℕ, ◌≡◌, refl, none, some, [], ◌∷◌, Text, text, Dict, lookup, ok, err, nat_eq, list_eq,
}
use automated_reconciliation.Storage.Manifest.{
  WorkPartition, Manifest, Outcome, fetched, broken, pending_row, register_work_partitions,
  finish_work_partition, finish_all, mark_all, bad_status, not_unique,
}
use automated_reconciliation.Storage.Manifest.Settled.{
  Steps, done, then_, registers, starts, finishes, GoesOn, Steps-GoesOn,
}
use automated_reconciliation.Storage.Manifest.Rounds.{after_outcome, finish_all-lookup}

abbrev work : ℕ → WorkPartition
work bucket = record {
  run_id = text "run";
  control_date = 1;
  instrument_type = text "EQUITY";
  symbol_bucket = bucket;
  provider = text "YAHOO";
  symbols_json = text "SPY";
}

abbrev partitions : Dict Text WorkPartition
partitions = (text "a", work 1) ∷ (text "b", work 2) ∷ []

abbrev registered : Manifest
registered = (text "a", pending_row (work 1)) ∷ (text "b", pending_row (work 2)) ∷ []

register_partitions : register_work_partitions partitions [] ≡ (ok tt, registered)
unfolding register_work_partitions
register_partitions = refl

unknown_status : finish_work_partition 9 (text "a") (text "DONE") 1 none registered ≡ err bad_status
unfolding finish_work_partition
unknown_status = refl

-- The second partition is the same work as the first, under another identifier.
clashing :
    register_work_partitions ((text "a", work 1) ∷ (text "c", work 1) ∷ []) []
    ≡ (err not_unique, (text "a", pending_row (work 1)) ∷ [])
unfolding register_work_partitions
clashing = refl

-- A second registration, a claim, a failure and another claim.
calls : (m : Manifest) × Steps registered m
unfolding register_work_partitions finish_work_partition
calls = (
  _,
  then_ (registers partitions) (
      then_ (starts 5 (text "a")) (
        then_ (finishes 6 (text "a") (text "FAILED") 0 (some (text "OSError", text "down")) refl)
          (then_ (starts 7 (text "a")) done))),
)

Steps-GoesOn_example : GoesOn (text "a") (pending_row (work 1)) calls.0
Steps-GoesOn_example = Steps-GoesOn (text "a") (pending_row (work 1)) calls.1 refl

abbrev outcomes : Dict Text Outcome
outcomes = (text "b", fetched 3) ∷ (text "a", broken (text "OSError", text "down")) ∷ []

finish_all-lookup_example :
    (m' : Manifest) × (finish_all 9 outcomes (mark_all 5 (text "a" ∷ text "b" ∷ []) registered)
      ≡ ok m')
    × ((id : Text)
        → lookup id m'
          ≡ after_outcome 9
              (lookup id outcomes)
              (lookup id (mark_all 5 (text "a" ∷ text "b" ∷ []) registered)))
finish_all-lookup_example =
    finish_all-lookup 9 outcomes (mark_all 5 (text "a" ∷ text "b" ∷ []) registered)
      (refl, (refl, tt))
