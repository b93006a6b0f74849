-- ===== src/Reconciliation/Equities/Rows.antt =====
-- Which rows `reconcile_equity_bars` returns.
use automated_reconciliation.Common.{
  ℕ, ◌≡◌, refl, true, none, some, is_some, ◌||◌, Option, Text, Dict, lookup, Distinct, map_values,
  map_option, lookup-map_values, map_values-Distinct, nat_eq, list_eq, pair_eq, Result, ok, err,
  >>=-eq-ok, subst, ap, sym, ◌∙◌,
}
use automated_reconciliation.Common.Float.{Float, difference}
use automated_reconciliation.Reconciliation.Validation.{
  BarKey, Bar, Frame, ValidationError, validate_equity_bars,
}
use automated_reconciliation.Reconciliation.Validation.Consistent.{
  AreEntries, validate_equity_bars_sound,
}
use automated_reconciliation.Reconciliation.Equities.{
  OuterMerge, joined, checked, row_status, Tolerances, ResultRow, check_tolerances, result_row,
  reconcile_equity_bars,
}

checked-eq-ok {ℓ} :
    {A : Type ℓ} (r : Result ValidationError A) {a : A} → checked r ≡ ok a → r ≡ ok a
checked-eq-ok (ok b) h = cc
checked-eq-ok (err e) h = cc

module _ (F : Float) where
  -- What a row shows of a key, by what the two frames have for it.
  pub record Compares (t : Tolerances F) (a b : Option (Bar F)) (row : ResultRow F) : Type 0 where
    pub found : (is_some a || is_some b) ≡ true
    pub close_a : row.close_a ≡ map_option (λ x. x.close) a
    pub close_b : row.close_b ≡ map_option (λ x. x.close) b
    pub volume_a : row.volume_a ≡ map_option (λ x. x.volume) a
    pub volume_b : row.volume_b ≡ map_option (λ x. x.volume) b
    pub close_difference : row.close_difference ≡ difference F row.close_a row.close_b
    pub volume_difference : row.volume_difference ≡ difference F row.volume_a row.volume_b
    pub status : row.status ≡ row_status F t row.close_a row.close_b

  -- There is a row exactly if one of the frames has the key.
  abbrev pub AtKey : Tolerances F → Option (Bar F) → Option (Bar F) → Option (ResultRow F) → Type 0
  AtKey t a b none = (a ≡ none) × (b ≡ none)
  AtKey t a b (some row) = Compares t a b row

  compares :
      (t : Tolerances F) (a b : Option (Bar F))
      → (is_some a || is_some b) ≡ true
      → Compares t a b (result_row F t (a, b))
  unfolding result_row
  compares t a b found = record {
    found = found;
    close_a = refl;
    close_b = refl;
    volume_a = refl;
    volume_b = refl;
    close_difference = refl;
    volume_difference = refl;
    status = refl;
  }

  result_row-AtKey :
      (t : Tolerances F) (a b : Option (Bar F))
      → AtKey t a b (map_option (result_row F t) (joined a b))
  unfolding result_row
  result_row-AtKey t none none = (refl, refl)
  result_row-AtKey t none (some y) = compares t none (some y) refl
  result_row-AtKey t (some x) b = compares t (some x) b refl

module _ (F : Float) (parse_date : Text → Option ℕ) (M : OuterMerge BarKey (Bar F)) where
  -- When the comparison of two frames returns, both frames were valid, with entries that are their rows, and the rows of the
  -- result are exactly these: one for every symbol and date that either frame has, and none else, with the close and the volume
  -- that each frame has there, their differences, and the status of the closes.
  pub lookup-reconcile_equity_bars :
      (t : Tolerances F) (yahoo alpaca : Frame F) (rows : Dict BarKey (ResultRow F))
      → reconcile_equity_bars F parse_date M t yahoo alpaca ≡ ok rows
      → (left : Dict BarKey (Bar F)) × (right : Dict BarKey (Bar F)) × (validate_equity_bars F
            parse_date yahoo
          ≡ ok left)
        × (validate_equity_bars F parse_date alpaca ≡ ok right)
        × AreEntries F parse_date yahoo left
        × AreEntries F parse_date alpaca right
        × Distinct rows
        × ((k : BarKey) → AtKey F t (lookup k left) (lookup k right) (lookup k rows))
  unfolding reconcile_equity_bars
  lookup-reconcile_equity_bars t yahoo alpaca rows h =
      let (_, _, h₁) = >>=-eq-ok (check_tolerances F t) _ h in
      let (left, l, h₂) = >>=-eq-ok (checked (validate_equity_bars F parse_date yahoo)) _ h₁ in
      let (right, r, last) = >>=-eq-ok (checked (validate_equity_bars F parse_date alpaca)) _ h₂ in
      let lv = checked-eq-ok (validate_equity_bars F parse_date yahoo) l in
      let rv = checked-eq-ok (validate_equity_bars F parse_date alpaca) r in
      let le = validate_equity_bars_sound F parse_date yahoo left lv in
      let re = validate_equity_bars_sound F parse_date alpaca right rv in
      let same : map_values (result_row F t) (M.merge left right) ≡ rows = cc in
      (
        left,
        right,
        lv,
        rv,
        le,
        re,
        subst (λ (d : Dict BarKey (ResultRow F)). Distinct d) same
            (map_values-Distinct (result_row F t) (M.merge left right)
              (M.merge-Distinct left right le.0 re.0)),
        λ k.
            subst (AtKey F t (lookup k left) (lookup k right))
              (sym (
                ap (lookup k) (sym same)
                ∙ lookup-map_values (result_row F t) k (M.merge left right)
                ∙ ap (map_option (result_row F t)) (M.lookup-merge left right le.0 re.0 k)))
              (result_row-AtKey F t (lookup k left) (lookup k right)),
      )

  -- Every row is made from what the two sides have.
  pub reconcile_equity_bars-rows :
      (t : Tolerances F) (yahoo alpaca : Frame F) (rows : Dict BarKey (ResultRow F))
      → reconcile_equity_bars F parse_date M t yahoo alpaca ≡ ok rows
      → (joint : Dict BarKey (Option (Bar F) × Option (Bar F))) × (map_values (result_row F t) joint
          ≡ rows)
  unfolding reconcile_equity_bars
  reconcile_equity_bars-rows t yahoo alpaca rows h =
      let (_, _, h₁) = >>=-eq-ok (check_tolerances F t) _ h in
      let (left, l, h₂) = >>=-eq-ok (checked (validate_equity_bars F parse_date yahoo)) _ h₁ in
      let (right, r, last) = >>=-eq-ok (checked (validate_equity_bars F parse_date alpaca)) _ h₂ in
      (M.merge left right, cc)
