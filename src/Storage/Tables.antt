-- ===== src/Storage/Tables.antt =====
-- Tables with a primary key, as `initialize_database` of reconciliation_engine/storage/duckdb.py declares them, and what
-- INSERT does to one: a row whose key is there already is a ConstraintException.
use automated_reconciliation.Common.{
  ◌≡◌, refl, sym, ◌∙◌, Option, none, some, List, [], ◌∷◌, ◌++◌, if◌then◌else◌, Dict, lookup,
  Distinct, Eq, ◌==◌, arith, Option-cases, inl, inr, map_option, subst, ap,
}
use mathlib.Core.List.{append_assoc, append-nil}

-- The first value that is there.
abbrev pub first_of {κ} : {V : Type κ} → Option V → Option V → Option V
first_of (some v) o = some v
first_of none o = o

module _ {ℓ κ} {K : Type ℓ} {V : Type κ} ⦃e : Eq K⦄ where
  -- INSERT of one row after another.
  unfoldable pub insert_rows : List (K × V) → Dict K V → Option (Dict K V)
  insert_rows [] d = some d
  insert_rows ((k, v) ∷ rows) d = elim (lookup k d) [
    | some _ ↦ none
    | none ↦ insert_rows rows (d ++ (k, v) ∷ [])
  ]

  -- UPDATE of the row with some key, if there is one.
  unfoldable pub update : K → (V → V) → Dict K V → Dict K V
  update k f [] = []
  update k f ((j, v) ∷ d) = (j, (if k == j then f v else v)) ∷ update k f d

  pub lookup-update :
      (j k : K) (f : V → V) (d : Dict K V)
      → lookup j (update k f d) ≡ (if j == k then map_option f (lookup j d) else lookup j d)
  unfolding update
  lookup-update j k f [] = ground arith
  lookup-update j k f ((i, v) ∷ d) =
      ground (arith, e.equals_iff j k, e.equals_iff k i, e.equals_iff j i, lookup-update j k f d)

  pub lookup-append :
      (k : K) (a b : Dict K V) → lookup k (a ++ b) ≡ first_of (lookup k a) (lookup k b)
  lookup-append k [] b = refl
  lookup-append k ((j, v) ∷ a) b = ground (arith, lookup-append k a b)

  pub Distinct-snoc :
      (d : Dict K V) (k : K) (v : V) → Distinct d → lookup k d ≡ none → Distinct (d ++ (k, v) ∷ [])
  Distinct-snoc [] k v h new = (refl, tt)
  Distinct-snoc ((j, w) ∷ d) k v h new = (
    ground (arith, lookup-append j d ((k, v) ∷ []), h.0, new, e.equals_iff j k, e.equals_iff k j),
    Distinct-snoc d k v h.1 (ground arith),
  )

  -- The key of a row comes before nothing else of its own.
  pub Distinct-fresh :
      (d : Dict K V) (j : K) (v : V) (rows : Dict K V)
      → Distinct (d ++ (j, v) ∷ rows)
      → lookup j d ≡ none
  Distinct-fresh [] j v rows h = refl
  Distinct-fresh ((i, w) ∷ d) j v rows h = ground (
    arith,
    lookup-append i d ((j, v) ∷ rows),
    h.0,
    Distinct-fresh d j v rows h.1,
    e.equals_iff i j,
    e.equals_iff j i,
  )

  -- An INSERT that does not raise has appended its rows, and the keys of the table are still distinct.
  pub insert_rows-appends :
      (rows d d' : Dict K V)
      → insert_rows rows d ≡ some d'
      → Distinct d
      → (d' ≡ d ++ rows) × Distinct d'
  unfolding insert_rows
  insert_rows-appends [] d d' h k =
      let same : d ≡ d' = cc in
      (rw (append-nil) (sym same), subst (λ (x : Dict K V). Distinct x) same k)
  insert_rows-appends ((j, v) ∷ rows) d d' h k = elim (Option-cases (lookup j d)) [
    | inl new ↦
        let (p, q) =
          insert_rows-appends rows (d ++ (j, v) ∷ []) d' (rw (new, insert_rows) at h)
            (Distinct-snoc d j v k new) in
        (p ∙ append_assoc d ((j, v) ∷ []) rows, q)
    | inr (w, old) ↦ absurd (no_rows (rw (old, insert_rows) at h))
  ]
    where
      no_rows : ◌≡◌ {A = Option (Dict K V)} none (some d') → ⊥
      no_rows e = cc

  -- An INSERT of rows whose keys are new and distinct does not raise.
  pub insert_rows-Distinct :
      (rows d : Dict K V) → Distinct (d ++ rows) → insert_rows rows d ≡ some (d ++ rows)
  unfolding insert_rows
  insert_rows-Distinct [] d h = rw (append-nil) refl
  insert_rows-Distinct ((j, v) ∷ rows) d h = elim (Option-cases (lookup j d)) [
    | inl new ↦
        rw (new, insert_rows)
          (insert_rows-Distinct rows (d ++ (j, v) ∷ []) (rw (append_assoc d ((j, v) ∷ []) rows) h)
            ∙ ap some (append_assoc d ((j, v) ∷ []) rows))
    | inr (w, old) ↦ absurd (ground (arith, old, Distinct-fresh d j v rows h))
  ]
