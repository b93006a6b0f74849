-- ===== src/Reconciliation/Equities/Pairs/Reasons.antt =====
-- Every break of the pairwise result is explained, and nothing else is.
use automated_reconciliation.Common.{
  ℕ, ◌+◌, ◌*◌, ◌≡◌, refl, Option, none, some, List, [], ◌∷◌, ◌++◌, map, Text, length, length-append,
  Dict, map_values, nat_eq, list_eq, pair_eq, ok, raise_if, ltb, >>=-eq-ok, All, All-append,
  is_some, arith, subst,
}
use automated_reconciliation.Common.Float.{Float}
use automated_reconciliation.Reconciliation.Validation.{BarKey, Bar, Frame}
use automated_reconciliation.Reconciliation.Equities.{
  OuterMerge, too_few_providers, Tolerances, result_row, row_status, is_warned,
  reconcile_equity_bars,
}
use automated_reconciliation.Reconciliation.Equities.Rows.{reconcile_equity_bars-rows}
use automated_reconciliation.Reconciliation.Equities.Pairs.{
  missing_observation, is_break, combinations, pair_with, PairRow, reason_of, pair_row,
  reconcile_pair, reconcile_pairs, reconcile_equity_sources,
}

pub length-map {ℓ} : {A B : Type ℓ} (f : A → B) (xs : List A) → length (map f xs) ≡ length xs
length-map f [] = refl
length-map f (x ∷ xs) = omega (arith, length-map f xs)

-- n providers make n (n - 1) / 2 pairs.
pub length-combinations {ℓ} :
    {A : Type ℓ} (xs : List A) → 2 * length (combinations xs) + length xs ≡ length xs * length xs
unfolding combinations
length-combinations [] = refl
length-combinations (x ∷ xs) = omega (
  arith,
  length-append (map (pair_with x) xs) (combinations xs),
  length-map (pair_with x) xs,
  length-combinations xs,
)

module _ (F : Float) where
  -- What the reason of a row says, by what each side has.
  abbrev pub IsExplained : PairRow F → Type 0
  IsExplained p =
      (is_some p.break_reason ≡ is_break p.row.status)
      × (p.row.close_b ≡ none → p.break_reason ≡ some (missing_observation p.source_b))
      × ((x : F.Num)
          → p.row.close_a ≡ none
          → p.row.close_b ≡ some x
          → p.break_reason ≡ some (missing_observation p.source_a))

  pair_row-IsExplained :
      (t : Tolerances F) (source_a source_b : Text) (key : BarKey) (a b : Option (Bar F))
      → IsExplained (pair_row F source_a source_b (key, result_row F t (a, b)))
  unfolding reason_of result_row row_status is_warned
  pair_row-IsExplained t source_a source_b key none none =
      (ground arith, λ h. ground arith, λ x h k. ground arith)
  pair_row-IsExplained t source_a source_b key none (some b) =
      (ground arith, λ h. ground arith, λ x h k. ground arith)
  pair_row-IsExplained t source_a source_b key (some a) none =
      (ground arith, λ h. ground arith, λ x h k. ground arith)
  pair_row-IsExplained t source_a source_b key (some a) (some b) =
      (ground arith, λ h. ground arith, λ x h k. ground arith)

  pair_rows-IsExplained :
      (t : Tolerances F) (source_a source_b : Text)
      (joint : Dict BarKey (Option (Bar F) × Option (Bar F)))
      → All IsExplained (map (pair_row F source_a source_b) (map_values (result_row F t) joint))
  pair_rows-IsExplained t source_a source_b [] = tt
  pair_rows-IsExplained t source_a source_b ((key, (a, b)) ∷ joint) = (
    pair_row-IsExplained t source_a source_b key a b,
    pair_rows-IsExplained t source_a source_b joint,
  )

  module _ (parse_date : Text → Option ℕ) (M : OuterMerge BarKey (Bar F)) (t : Tolerances F) where
    reconcile_pair-IsExplained :
        (source_a source_b : Text) (bars_a bars_b : Frame F) (rows : List (PairRow F))
        → reconcile_pair F parse_date M t ((source_a, bars_a), (source_b, bars_b)) ≡ ok rows
        → All IsExplained rows
    unfolding reconcile_pair
    reconcile_pair-IsExplained source_a source_b bars_a bars_b rows h =
        let (results, run, last) =
          >>=-eq-ok (reconcile_equity_bars F parse_date M t bars_a bars_b) _ h in
        let (joint, made) = reconcile_equity_bars-rows F parse_date M t bars_a bars_b results run in
        let same : map (pair_row F source_a source_b) (map_values (result_row F t) joint) ≡ rows =
          cc in
        subst (λ (xs : List (PairRow F)). All IsExplained xs) same
          (pair_rows-IsExplained t source_a source_b joint)

    reconcile_pairs-IsExplained :
        (ps : List ((Text × Frame F) × (Text × Frame F))) (rows : List (PairRow F))
        → reconcile_pairs F parse_date M t ps ≡ ok rows
        → All IsExplained rows
    unfolding reconcile_pairs
    reconcile_pairs-IsExplained [] rows h =
        let same : [] ≡ rows = cc in subst (λ (xs : List (PairRow F)). All IsExplained xs) same tt
    reconcile_pairs-IsExplained (((source_a, bars_a), (source_b, bars_b)) ∷ ps) rows h =
        let (these, run, h₁) =
          >>=-eq-ok (reconcile_pair F parse_date M t ((source_a, bars_a), (source_b, bars_b))) _
            h in
        let (rest, run', last) = >>=-eq-ok (reconcile_pairs F parse_date M t ps) _ h₁ in
        let same : these ++ rest ≡ rows = cc in
        subst (λ (xs : List (PairRow F)). All IsExplained xs) same
          (All-append IsExplained these rest
            (reconcile_pair-IsExplained source_a source_b bars_a bars_b these run)
            (reconcile_pairs-IsExplained ps rest run'))

    -- In the result for any providers, a row has a break reason exactly when its status is BREAK, and an
    -- observation that is missing on one side is blamed on that provider (on the second, if both were).
    pub reconcile_equity_sources-IsExplained :
        (providers : List (Text × Frame F)) (rows : List (PairRow F))
        → reconcile_equity_sources F parse_date M t providers ≡ ok rows
        → All IsExplained rows
    unfolding reconcile_equity_sources
    reconcile_equity_sources-IsExplained providers rows h =
        let (_, _, run) = >>=-eq-ok (raise_if (ltb (length providers) 2) too_few_providers) _ h in
        reconcile_pairs-IsExplained (combinations providers) rows run
