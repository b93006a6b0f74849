-- ===== src/Reconciliation/Futures/Sessions.antt =====
-- When a futures session is a BREAK, and why.
use automated_reconciliation.Common.{
  ◌≡◌, ◌↔◌, true, none, some, is_some, arith, nat_eq, list_eq, pair_eq,
}
use automated_reconciliation.Common.Float.{Float, reference}
use automated_reconciliation.Reconciliation.Equities.{break, hybrid_limit}
use automated_reconciliation.Reconciliation.Equities.Pairs.{is_break}
use automated_reconciliation.Reconciliation.Futures.{
  missing_yahoo, missing_massive, futures_verdict,
}

module _ (F : Float) where
  -- A session with a close on one side only is a BREAK that blames the other side; with both, it has a reason exactly when it
  -- is a BREAK, and is one exactly when the closes differ by more than the limit.
  pub futures_verdict_iff :
      (close_tolerance pct x y : F.Num)
      → let verdict = futures_verdict F close_tolerance pct in
        let both = verdict (some x) (some y) in
        (verdict (some x) none ≡ (break, some missing_massive))
        × (verdict none (some y) ≡ (break, some missing_yahoo))
        × (is_some both.1 ≡ is_break both.0)
        × ((both.0 ≡ break) ↔ (
            F.lt
              (hybrid_limit F close_tolerance (some pct) (reference F (some x) (some y)))
              (F.abs (F.sub x y))
            ≡ true))
  unfolding futures_verdict
  futures_verdict_iff close_tolerance pct x y =
      (ground arith, ground arith, ground arith, ground arith)
