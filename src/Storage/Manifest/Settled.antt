-- ===== src/Storage/Manifest/Settled.antt =====
-- What the manifest says of a partition while calls of the three functions follow each other in any order.
use automated_reconciliation.Common.{
  ℕ, ◌≤◌, ◌≡◌, refl, ◌∙◌, Option, some, [], ◌∷◌, ◌++◌, Text, Dict, lookup, is_some, any_of, ◌==◌,
  nat_eq, list_eq, Result, ok, err, arith, Bool-cases, Option-cases, inl, inr,
}
use automated_reconciliation.Storage.Tables.{lookup-append, update, lookup-update}
use automated_reconciliation.Storage.Manifest.{
  WorkPartition, WorkRow, ManifestError, bad_status, Manifest, is_same_work, pending_row,
  register_work_partitions, started, mark_partition_running, parse_status, Raised, finished,
  finish_work_partition,
}

-- One call, with whatever arguments. A registration may raise, and leaves what it had inserted; if `finish_work_partition` raises, the
-- manifest is as it was.
pub data Step : Manifest → Manifest → Type 0 where
  registers :
      {m : Manifest} (ws : Dict Text WorkPartition) → Step m (register_work_partitions ws m).1
  starts : {m : Manifest} (now : ℕ) (id : Text) → Step m (mark_partition_running now id m)
  finishes :
      {m m' : Manifest} (now : ℕ) (id status : Text) (row_count : ℕ) (error : Option Raised)
      → finish_work_partition now id status row_count error m ≡ ok m'
      → Step m m'

-- Calls after each other.
pub data Steps : Manifest → Manifest → Type 0 where
  done : {m : Manifest} → Steps m m
  then_ : {m m' m'' : Manifest} → Step m m' → Steps m' m'' → Steps m m''

-- The same work, after as many attempts or more.
abbrev pub Continues : WorkRow → WorkRow → Type 0
Continues r r' = (r'.work ≡ r.work) × (r.attempts ≤ r'.attempts)

started-Continues : (now : ℕ) (r : WorkRow) → Continues r (started now r)
started-Continues now r = (ground arith, ground arith)

register-lookup :
    (ws : Dict Text WorkPartition) (m : Manifest) (id : Text) (r : WorkRow)
    → lookup id m ≡ some r
    → lookup id (register_work_partitions ws m).1 ≡ some r
unfolding register_work_partitions
register-lookup [] m id r k = k
register-lookup ((j, w) ∷ ws) m id r k = elim (Bool-cases (is_some (lookup j m))) [
  | inl old ↦ rw (old, register_work_partitions) (register-lookup ws m id r k)
  | inr new ↦ elim (Bool-cases (any_of (is_same_work w) m)) [
    | inl clash ↦ rw (new, clash, register_work_partitions) k
    | inr fresh ↦
        rw (new, fresh, register_work_partitions)
          (register-lookup ws (m ++ (j, pending_row w) ∷ []) id r
            (lookup-append id m ((j, pending_row w) ∷ []) ∙ rw k refl))
  ]
]

-- What follows a row in a later manifest.
abbrev pub GoesOn : Text → WorkRow → Manifest → Type 0
GoesOn id r m' = (r' : WorkRow) × (lookup id m' ≡ some r') × Continues r r'

update-GoesOn :
    (id j : Text) (f : WorkRow → WorkRow) (m : Manifest) (r : WorkRow)
    → ((x : WorkRow) → Continues x (f x))
    → lookup id m ≡ some r
    → GoesOn id r (update j f m)
update-GoesOn id j f m r keep k = elim (Bool-cases (id == j)) [
  | inl here ↦ (f r, lookup-update id j f m ∙ rw (here, k) refl, keep r)
  | inr there ↦ (r, lookup-update id j f m ∙ rw (there) k, (refl, omega arith))
]

Step-GoesOn :
    {m m' : Manifest} (id : Text) (r : WorkRow) → Step m m' → lookup id m ≡ some r → GoesOn id r m'
unfolding mark_partition_running finish_work_partition
Step-GoesOn {m = m} id r (registers ws) k = (r, register-lookup ws m id r k, (refl, omega arith))
Step-GoesOn {m = m} id r (starts now j) k =
    update-GoesOn id j (started now) m r (started-Continues now) k
Step-GoesOn {m = m} {m' = m'} id r (finishes now j status row_count error run) k =
    elim (Option-cases (parse_status status)) [
      | inl unknown_ ↦ absurd (no_rows (rw (unknown_, finish_work_partition) at run))
      | inr (s, e) ↦
          let same : update j (finished now s row_count error) m ≡ m' =
            updated (rw (e, finish_work_partition) at run) in
          rw (← same)
            (update-GoesOn id j (finished now s row_count error) m r (λ x. (refl, omega arith)) k)
    ]
  where
    no_rows : ◌≡◌ {A = Result ManifestError Manifest} (err bad_status) (ok m') → ⊥
    no_rows e = cc

    updated : {x : Manifest} → ◌≡◌ {A = Result ManifestError Manifest} (ok x) (ok m') → x ≡ m'
    updated e = cc

-- However calls of the three functions follow each other, a partition that was registered once stays registered, as the
-- same work, and the count of its attempts never falls.
pub Steps-GoesOn :
    {m m' : Manifest} (id : Text) (r : WorkRow) → Steps m m' → lookup id m ≡ some r → GoesOn id r m'
Steps-GoesOn id r done k = (r, k, (refl, omega arith))
Steps-GoesOn id r (then_ step rest) k =
    let (r₁, k₁, on₁) = Step-GoesOn id r step k in
    let (r₂, k₂, on₂) = Steps-GoesOn id r₁ rest k₁ in
    (r₂, k₂, (on₂.0 ∙ on₁.0, omega (arith, on₁.1, on₂.1)))
