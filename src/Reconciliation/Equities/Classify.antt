-- ===== src/Reconciliation/Equities/Classify.antt =====
-- What the status of a row says about the two closing prices.
use automated_reconciliation.Common.{
  ◌≡◌, ◌↔◌, ◌⊎◌, inl, inr, refl, true, false, Option, none, some, arith, ok, Option-cases,
}
use automated_reconciliation.Common.Float.{Float, maximum_comm, lt-maximum, reference}
use automated_reconciliation.Reconciliation.Equities.{
  matched, warn, break, Tolerances, check_tolerances, hybrid_limit, row_status, is_warned,
}

module _ (F : Float) where
  -- The limit for a break between two prices.
  abbrev pub break_limit : Tolerances F → F.Num → F.Num → F.Num
  break_limit t a b =
      hybrid_limit F t.close_tolerance t.break_pct_tolerance (reference F (some a) (some b))

  over_limit :
      (t : Tolerances F) (x y : F.Num)
      → F.lt (break_limit t x y) (F.abs (F.sub x y)) ≡ true
      → row_status F t (some x) (some y) ≡ break
  unfolding row_status is_warned
  over_limit t x y h = ground arith

  -- Why a row is a BREAK.
  abbrev pub Cause : Tolerances F → Option F.Num → Option F.Num → Type 0
  Cause t a b =
      (a ≡ none)
      ⊎ (b ≡ none)
      ⊎ ((x : F.Num) × (y : F.Num) × (a ≡ some x)
          × (b ≡ some y)
          × (F.lt (break_limit t x y) (F.abs (F.sub x y)) ≡ true))

  over_of_Cause :
      (t : Tolerances F) (x y : F.Num)
      → Cause t (some x) (some y)
      → row_status F t (some x) (some y) ≡ break
  over_of_Cause t x y (inl e) = cc
  over_of_Cause t x y (inr (inl e)) = cc
  over_of_Cause t x y (inr (inr (x', y', p, q, over))) = cc (over_limit t x' y' over)

  -- A row is a BREAK exactly when one of the prices is missing, or when both are there and differ by more
  -- than the break limit.
  pub row_status-break_iff :
      (t : Tolerances F) (a b : Option F.Num) → (row_status F t a b ≡ break) ↔ Cause t a b
  unfolding row_status is_warned
  row_status-break_iff t none b = ground arith
  row_status-break_iff t (some x) none = ground arith
  row_status-break_iff t (some x) (some y) =
      ((λ h. inr (inr (x, y, refl, refl, ground arith))), over_of_Cause t x y)

  -- The comparison does not depend on which provider is first.
  pub row_status_comm :
      (t : Tolerances F) (a b : Option F.Num) → row_status F t a b ≡ row_status F t b a
  unfolding row_status is_warned
  row_status_comm t none none = refl
  row_status_comm t none (some y) = ground arith
  row_status_comm t (some x) none = ground arith
  row_status_comm t (some x) (some y) =
      ground (arith, F.abs-sub x y, maximum_comm F (F.abs x) (F.abs y))

  -- A row is a WARN exactly when a warning tolerance is set and the prices are both there, differ by more than
  -- the warning limit, and by no more than the break limit.
  pub row_status-warn_iff :
      (t : Tolerances F) (base x y : F.Num)
      → t.warn_tolerance ≡ some base
      → (row_status F t (some x) (some y) ≡ warn) ↔ (
          (F.lt
              (hybrid_limit F base t.warn_pct_tolerance (reference F (some x) (some y)))
              (F.abs (F.sub x y))
            ≡ true)
          × (F.lt (break_limit t x y) (F.abs (F.sub x y)) ≡ false))
  unfolding row_status is_warned
  row_status-warn_iff t base x y h = (λ k. ground arith, λ k. ground arith)

  hybrid_limit_nonneg :
      (base : F.Num) (pct price : Option F.Num)
      → F.lt base F.zero ≡ false
      → F.lt (hybrid_limit F base pct price) F.zero ≡ false
  unfolding hybrid_limit
  hybrid_limit_nonneg base none price h = h
  hybrid_limit_nonneg base (some pct) none h = h
  hybrid_limit_nonneg base (some pct) (some price) h = lt-maximum F base (F.mul price pct) F.zero h

  checked_base :
      (t : Tolerances F) (base : F.Num)
      → check_tolerances F t ≡ ok tt
      → t.warn_tolerance ≡ some base
      → F.lt base F.zero ≡ false
  unfolding check_tolerances
  checked_base t base h e = ground arith

  checked_close :
      (t : Tolerances F) → check_tolerances F t ≡ ok tt → F.lt t.close_tolerance F.zero ≡ false
  unfolding check_tolerances
  checked_close t h = ground arith

  -- With tolerances that the checks let pass, a price matches itself.
  pub row_status_self :
      (t : Tolerances F) (x : F.Num)
      → check_tolerances F t ≡ ok tt
      → row_status F t (some x) (some x) ≡ matched
  unfolding row_status is_warned
  row_status_self t x h =
      let price = reference F (some x) (some x) in
      let close =
        hybrid_limit_nonneg t.close_tolerance t.break_pct_tolerance price (checked_close t h) in
      elim (Option-cases t.warn_tolerance) [
        | inl plain ↦ ground (arith, F.sub_self x, close)
        | inr (base, e) ↦ ground (
          arith,
          F.sub_self x,
          close,
          hybrid_limit_nonneg base t.warn_pct_tolerance price (checked_base t base h e),
        )
      ]
