-- ===== src/Reconciliation/Futures/Tests.antt =====
-- The futures comparison on concrete sessions, and the theorem about it at an input.
use automated_reconciliation.Common.{
  ◌≡◌, ◌↔◌, refl, true, none, some, [], err, is_some, nat_eq, list_eq, pair_eq,
}
use automated_reconciliation.Common.Int.{pos, ltb_ℤ, ◌-ℤ◌, abs}
use automated_reconciliation.Common.Float.{reference}
use automated_reconciliation.Reconciliation.Equities.{break, hybrid_limit}
use automated_reconciliation.Reconciliation.Equities.Pairs.{is_break}
use automated_reconciliation.Reconciliation.Tests.{units, outer_merge, parse_date}
use automated_reconciliation.Reconciliation.Futures.{
  missing_yahoo, missing_massive, futures_verdict, FuturesFrame, no_contract_map,
  reconcile_futures_bars,
}
use automated_reconciliation.Reconciliation.Futures.Sessions.{futures_verdict_iff}

abbrev nothing : FuturesFrame units
nothing = record { columns = []; rows = [] }

unmapped :
    reconcile_futures_bars units parse_date outer_merge (pos 3) (pos 0) [] nothing nothing
    ≡ err no_contract_map
unfolding reconcile_futures_bars
unmapped = refl

futures_verdict_iff_example :
    let verdict = futures_verdict units (pos 3) (pos 0) in
    let both = verdict (some (pos 100)) (some (pos 107)) in
    (verdict (some (pos 100)) none ≡ (break, some missing_massive))
    × (verdict none (some (pos 107)) ≡ (break, some missing_yahoo))
    × (is_some both.1 ≡ is_break both.0)
    × ((both.0 ≡ break) ↔ (
        ltb_ℤ
          (hybrid_limit units
            (pos 3)
            (some (pos 0))
            (reference units (some (pos 100)) (some (pos 107))))
          (abs (pos 100 -ℤ pos 107))
        ≡ true))
futures_verdict_iff_example = futures_verdict_iff units (pos 3) (pos 0) (pos 100) (pos 107)
