-- ===== src/Storage/DataLake/Again.antt =====
-- A second call of `archive_equity_source` finds what the first one archived.
use automated_reconciliation.Common.{◌≡◌, Option, Text, and_then, nat_eq, list_eq}
use automated_reconciliation.Common.Float.{Float}

-- Reading a date that was normalized gives that date.
abbrev pub RestoresDates : (Option Text → Option Text) → (Text → Option Text) → Type 0
RestoresDates restore_date coerce_date =
    (d : Option Text) → restore_date (and_then d coerce_date) ≡ and_then d coerce_date
