-- ===== src/Scaling/Execution/Tests.antt =====
-- `_execute_partition_inner` on concrete frames, and the theorems about it at an input.
use automated_reconciliation.Common.{
  ◌≡◌, ◌≤◌, refl, true, false, Option, none, some, [], ◌∷◌, Text, text, nat_eq, list_eq, pair_eq,
  strip, normalize,
}
use automated_reconciliation.Reconciliation.Validation.{
  Frame, validate_equity_bars, complete, complete_all, key_all, check_bars, has_duplicates,
}
use automated_reconciliation.Reconciliation.Tests.{units, parse_date, yahoo}
use automated_reconciliation.Scaling.Execution.{
  written, not_written, Archive, Attempt, PartitionOutcome, archived, canonical_of,
  normalize_equity_dataframe, execute_partition,
}
use automated_reconciliation.Scaling.Execution.Checkpoints.{
  ReadsDates, reread, attempt, IsGood, IsSound, fetched_of, execute_partition-IsGood,
  execute_partition-again, execute_partition-fetched,
}

abbrev keep_date : Text → Option Text
keep_date date = some date

-- What is read of a date has its first character, which is what `parse_date` reads.
abbrev stamped : Text → Text
stamped [] = []
stamped (c ∷ cs) = c ∷ text "T00"

stamped-ReadsDates : ReadsDates units keep_date parse_date stamped
stamped-ReadsDates = record { parses = λ d. parses d; settles = λ d. settles d }
  where
    parses : (date : Text) → parse_date (stamped date) ≡ parse_date date
    parses [] = refl
    parses (c ∷ cs) = refl

    settles : (date : Text) → stamped (stamped date) ≡ stamped date
    settles [] = refl
    settles (c ∷ cs) = refl

-- The raw frame is there, and was fetched in the one attempt before.
abbrev halfway : Archive units
halfway = record { raw = some (archived units yahoo); normalized = none; fetches = 1 }

abbrev good : Attempt units
good = record { fetched = none; write_raw = written; write_normalized = written }

abbrev bad : Attempt units
bad = record { fetched = none; write_raw = not_written; write_normalized = not_written }

abbrev frame_or : Frame units → Option (Frame units) → Frame units
frame_or f none = f
frame_or f (some g) = g

abbrev result : PartitionOutcome units × Archive units
result = attempt units keep_date parse_date stamped good halfway

abbrev canonical : Frame units
canonical = frame_or yahoo result.0.frame

halfway-IsSound : IsSound units keep_date parse_date stamped halfway
halfway-IsSound file h = cc

execute_partition-IsGood_example : IsGood units keep_date parse_date stamped canonical result.1
unfolding execute_partition canonical_of normalize_equity_dataframe validate_equity_bars complete
    complete_all key_all check_bars has_duplicates strip normalize
execute_partition-IsGood_example =
    execute_partition-IsGood units keep_date parse_date stamped good halfway canonical
      stamped-ReadsDates halfway-IsSound refl

execute_partition-again_example : attempt units keep_date parse_date stamped bad result.1 ≡ (
  record {
    frame = some (reread units keep_date parse_date stamped canonical);
    reused_archive = true;
    error = none;
    has_raw_path = false;
  },
  result.1,
)
unfolding execute_partition canonical_of normalize_equity_dataframe validate_equity_bars complete
    complete_all key_all check_bars has_duplicates strip normalize
execute_partition-again_example =
    execute_partition-again units keep_date parse_date stamped good bad halfway canonical
      stamped-ReadsDates halfway-IsSound refl

execute_partition-fetched_example :
    ((f : Frame units)
      → halfway.raw ≡ some f
      → fetched_of units keep_date parse_date stamped result.1
        ≡ fetched_of units keep_date parse_date stamped halfway)
    × (result.1.fetches ≤ 2)
execute_partition-fetched_example =
    execute_partition-fetched units keep_date parse_date stamped good halfway
