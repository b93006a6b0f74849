-- ===== src/Storage/Manifest/Rounds.antt =====
-- What the manifest says after a round of `ingest_equity_partitions`, in whatever order its futures completed.
use automated_reconciliation.Common.{
  ℕ, ◌≡◌, refl, ◌∙◌, Option, none, some, [], ◌∷◌, Text, take, Dict, lookup, Distinct, map_option,
  ◌==◌, beq_eq, nat_eq, list_eq, ok, Bool-cases, inl, inr,
}
use automated_reconciliation.Storage.Tables.{update, lookup-update}
use automated_reconciliation.Storage.Manifest.{
  success, failed_, WorkRow, Manifest, finish_work_partition, Outcome, fetched, broken,
  finish_outcome, finish_all,
}

-- The row of a partition after its outcome: its status, its number of rows, and the type and the first 1000 characters of an error.
abbrev pub settled : ℕ → Outcome → WorkRow → WorkRow
settled now (fetched rows) r = record r {
  status = success;
  finished_at = some now;
  row_count = some rows;
  error_type = none;
  error_message = none;
}
settled now (broken (name, message)) r = record r {
  status = failed_;
  finished_at = some now;
  row_count = some 0;
  error_type = some name;
  error_message = some (take 1000 message);
}

finish_outcome_lem :
    (now : ℕ) (id : Text) (o : Outcome) (m : Manifest)
    → finish_outcome now id o m ≡ ok (update id (settled now o) m)
unfolding finish_work_partition
finish_outcome_lem now id (fetched rows) m = refl
finish_outcome_lem now id (broken (name, message)) m = refl

-- The row, if the partition has an outcome, after that one.
abbrev pub after_outcome : ℕ → Option Outcome → Option WorkRow → Option WorkRow
after_outcome now none r = r
after_outcome now (some o) r = map_option (settled now o) r

-- If no partition has two outcomes, the loop over the outcomes raises nothing, in whatever order they come. Each partition that has an
-- outcome is left with SUCCESS, its number of rows and no error, or with FAILED, no rows, and the type and the first 1000
-- characters of its error, and with the time; its work, its attempts and its start stay, and so does every other partition.
pub finish_all-lookup :
    (now : ℕ) (outcomes : Dict Text Outcome) (m : Manifest)
    → Distinct outcomes
    → (m' : Manifest) × (finish_all now outcomes m ≡ ok m')
      × ((id : Text) → lookup id m' ≡ after_outcome now (lookup id outcomes) (lookup id m))
unfolding finish_all
finish_all-lookup now [] m h = (m, refl, λ id. refl)
finish_all-lookup now ((j, o) ∷ outcomes) m h =
    let (m', run, each) = finish_all-lookup now outcomes (update j (settled now o) m) h.1 in
    (
      m',
      rw (finish_outcome_lem now j o m) run,
      λ id. elim (Bool-cases (id == j)) [
        | inl here ↦
            each id ∙ rw (lookup-update id j (settled now o) m, here, beq_eq id j here, h.0) refl
        | inr there ↦ each id ∙ rw (lookup-update id j (settled now o) m, there) refl
      ],
    )
