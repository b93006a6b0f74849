-- ===== src/Reconciliation/Options/Blame.antt =====
-- Which provider a missing option contract is blamed on, and when a row is a BREAK.
use automated_reconciliation.Common.{
  ◌≡◌, ◌≢◌, ◌↔◌, ◌⊎◌, refl, true, Option, none, some, Text, text, upper, is_some, beq_ne, nat_eq,
  list_eq, arith,
}
use automated_reconciliation.Common.Float.{Float, difference}
use automated_reconciliation.Reconciliation.Equities.{break, exceeds}
use automated_reconciliation.Reconciliation.Equities.Pairs.{is_break}
use automated_reconciliation.Reconciliation.Options.{
  missing_label, pair_reason, Quote, compare_closes, option_verdict, option_row,
}

module _ (F : Float) where
  verdict_iff :
      (tolerance : F.Num) (a b : Option F.Num)
      → ((compare_closes F tolerance a b).0 ≡ break)
        ↔ ((a ≡ none) ⊎ (b ≡ none) ⊎ (exceeds F (difference F a b) tolerance ≡ true))
  unfolding compare_closes
  verdict_iff tolerance none b = ground arith
  verdict_iff tolerance (some x) none = ground arith
  verdict_iff tolerance (some x) (some y) = ground arith

  -- A row of the comparison is a BREAK exactly when it has a reason. A contract that one side has is always one, whose reason says
  -- that ALPACA or YAHOO lacks it; and a contract that both have is one exactly when a close is missing, or the closes differ by
  -- more than the tolerance.
  pub option_row-break :
      (tolerance : F.Num) (p q : Quote F)
      → let left = option_row F tolerance (some p, none) in
        let right = option_row F tolerance (none, some q) in
        let both = option_row F tolerance (some p, some q) in
        ((left.status ≡ break) × (left.break_reason ≡ some (text "MISSING_ALPACA_CONTRACT")))
        × ((right.status ≡ break) × (right.break_reason ≡ some (text "MISSING_YAHOO_CONTRACT")))
        × (is_some both.break_reason ≡ is_break both.status)
        × ((both.status ≡ break) ↔ (
            (p.close ≡ none)
            ⊎ (q.close ≡ none)
            ⊎ (exceeds F (difference F p.close q.close) tolerance ≡ true)))
  unfolding option_row option_verdict compare_closes
  option_row-break tolerance p q =
      ((refl, refl), (refl, refl), ground arith, verdict_iff tolerance p.close q.close)

  -- In the result for two providers, the second of which is not YAHOO, a contract that one of them lacks is blamed on the one
  -- that lacks it.
  pub pair_reason-blames :
      (tolerance : F.Num) (source_a source_b : Text) (p q : Quote F)
      → missing_label (upper source_b) ≢ missing_label (text "YAHOO")
      → let left = option_row F tolerance (some p, none) in
        let right = option_row F tolerance (none, some q) in
        (pair_reason source_a source_b right.break_reason ≡ some (missing_label (upper source_a)))
        × (pair_reason source_a source_b left.break_reason ≡ some (missing_label (upper source_b)))
  unfolding option_row option_verdict pair_reason
  pair_reason-blames tolerance source_a source_b p q other =
      (refl, rw (beq_ne (missing_label (upper source_b)) (missing_label (text "YAHOO")) other) refl)

  -- If YAHOO is the second of two providers, a contract that YAHOO lacks is blamed on the first provider, which has it.
  pub pair_reason-misblames :
      (tolerance : F.Num) (source_a source_b : Text) (p : Quote F)
      → upper source_b ≡ text "YAHOO"
      → pair_reason source_a source_b (option_row F tolerance (some p, none)).break_reason
        ≡ some (missing_label (upper source_a))
  unfolding option_row option_verdict pair_reason
  pair_reason-misblames tolerance source_a source_b p same = rw (same) refl
