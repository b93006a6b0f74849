-- ===== src/Storage/Journal/FirstWins.antt =====
-- The journal keeps the first event with an id, and no call fails on the primary key.
use automated_reconciliation.Common.{
  ◌≡◌, refl, sym, ap, ◌∙◌, Bool, true, false, Option, none, some, List, [], ◌∷◌, text, any_of, Dict,
  lookup, Distinct, Eq, ◌==◌, beq_eq, list_eq, nat_eq, Result, ok, err, All, arith, Bool-cases,
  Option-cases, inl, inr,
}
use automated_reconciliation.Storage.Tables.{
  insert_rows-Distinct, Distinct-snoc, lookup-append, first_of,
}
use automated_reconciliation.Storage.Journal.{
  Driver, is_storable, required_fields, JournalRow, JournalError, lacks, Persist, row_of,
  persist_realtime_event,
}

-- Whether a call returned, and did not raise.
abbrev pub is_answer : Result JournalError Bool → Bool
is_answer (ok _) = true
is_answer (err _) = false

first_of-none : {V : Type 0} (o : Option V) → first_of o none ≡ o
first_of-none none = refl
first_of-none (some v) = refl

first_of_assoc :
    {V : Type 0} (a b c : Option V) → first_of (first_of a b) c ≡ first_of a (first_of b c)
first_of_assoc none b c = refl
first_of_assoc (some v) b c = refl

module _ {V : Type 0} where
  -- A call with an event that has its fields, `event_id` among them, and values that the columns take.
  pub record IsComplete (D : Driver V) (nothing_missing : V) (call : Persist V × V) : Type 0 where
    pub given : any_of (lacks call.0.event) required_fields ≡ false
    pub id : lookup (text "event_id") call.0.event ≡ some call.1
    pub storable : is_storable D (row_of nothing_missing call.0) ≡ true

  -- The rows of calls under the ids of their events.
  abbrev pub rows_of : V → List (Persist V × V) → Dict V (JournalRow V)
  rows_of nothing_missing [] = []
  rows_of nothing_missing ((p, id) ∷ calls) =
      (id, row_of nothing_missing p) ∷ rows_of nothing_missing calls

module _ {V : Type 0} ⦃e : Eq V⦄ (D : Driver V) (nothing_missing : V) where
  -- The calls one after another; what they return, and the journal.
  unfoldable pub persist_all :
      List (Persist V × V)
      → Dict V (JournalRow V)
      → List (Result JournalError Bool) × Dict V (JournalRow V)
  persist_all [] journal = ([], journal)
  persist_all ((p, id) ∷ calls) journal =
      let one = persist_realtime_event D nothing_missing p journal in
      let rest = persist_all calls one.1 in (one.0 ∷ rest.0, rest.1)

  kept :
      (k id : V) (old new : JournalRow V) (journal : Dict V (JournalRow V))
      → lookup id journal ≡ some old
      → lookup k journal ≡ first_of (lookup k journal) (lookup k ((id, new) ∷ []))
  kept k id old new journal found = elim (Bool-cases (k == id)) [
    | inl same ↦ rw (beq_eq k id same, found) refl
    | inr other ↦ rw (other) (sym (first_of-none (lookup k journal)))
  ]

  -- One call: what it returns, and what the journal has then.
  pub persist_realtime_event_lem :
      (p : Persist V) (id : V) (journal : Dict V (JournalRow V))
      → IsComplete D nothing_missing (p, id)
      → Distinct journal
      → (is_answer (persist_realtime_event D nothing_missing p journal).0 ≡ true)
        × Distinct (persist_realtime_event D nothing_missing p journal).1
        × ((k : V)
            → lookup k (persist_realtime_event D nothing_missing p journal).1
              ≡ first_of (lookup k journal) (lookup k ((id, row_of nothing_missing p) ∷ [])))
  unfolding persist_realtime_event
  persist_realtime_event_lem p id journal h d = elim (Option-cases (lookup id journal)) [
    | inl new ↦
        let row : V × JournalRow V = (id, row_of nothing_missing p) in
        let fresh = Distinct-snoc journal id (row_of nothing_missing p) d new in
        rw
          (
            h.given,
            persist_realtime_event,
            h.id,
            new,
            h.storable,
            insert_rows-Distinct (row ∷ []) journal fresh,
          )
          (refl, fresh, λ k. lookup-append k journal (row ∷ []))
    | inr (old, found) ↦
        rw (h.given, persist_realtime_event, h.id, found)
          (refl, d, λ k. kept k id old (row_of nothing_missing p) journal found)
  ]

  -- Whatever events are persisted one after another that have their fields, with values that the columns take, no call raises, the ids in the journal stay distinct, and the
  -- journal has for every id the row that it had before, or else that of the first event with the id.
  pub persist_all-lookup :
      (calls : List (Persist V × V)) (journal : Dict V (JournalRow V))
      → All (IsComplete D nothing_missing) calls
      → Distinct journal
      → (All (λ r. is_answer r ≡ true) (persist_all calls journal).0)
        × Distinct (persist_all calls journal).1
        × ((k : V)
            → lookup k (persist_all calls journal).1
              ≡ first_of (lookup k journal) (lookup k (rows_of nothing_missing calls)))
  unfolding persist_all
  persist_all-lookup [] journal h d = (tt, d, λ k. sym (first_of-none (lookup k journal)))
  persist_all-lookup ((p, id) ∷ calls) journal h d =
      let (answered, fresh, each) = persist_realtime_event_lem p id journal h.0 d in
      let (all, distinct, rest) =
        persist_all-lookup calls (persist_realtime_event D nothing_missing p journal).1 h.1 fresh in
      (
        (answered, all),
        distinct,
        λ k.
            rest k
            ∙ ap
                (λ (o : Option (JournalRow V)).
                  first_of o (lookup k (rows_of nothing_missing calls)))
                (each k)
            ∙ first_of_assoc (lookup k journal) (lookup k ((id, row_of nothing_missing p) ∷ []))
                (lookup k (rows_of nothing_missing calls))
            ∙ ap (first_of (lookup k journal))
                (joins k id (row_of nothing_missing p) (rows_of nothing_missing calls)),
      )
    where
      joins :
          (k id : V) (r : JournalRow V) (rows : Dict V (JournalRow V))
          → first_of (lookup k ((id, r) ∷ [])) (lookup k rows) ≡ lookup k ((id, r) ∷ rows)
      joins k id r rows = ground arith
