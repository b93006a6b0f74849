-- ===== src/Reconciliation/Tests.antt =====
-- A concrete number type and a concrete outer merge, with which the tests run the reconciliation.
mod Runs
use automated_reconciliation.Common.{
  ℕ, zero, suc, ◌+◌, ◌*◌, ◌≡◌, refl, Bool, true, false, Option, none, some, List, [], ◌∷◌, ◌++◌,
  arith, Text, Dict, lookup, remove, Distinct, is_some, Eq, ◌==◌, if◌then◌else◌, text, Result, ok,
  err, nat_eq, list_eq, pair_eq, Bool-cases, inl, inr, lookup-remove, beq_eq, map_values,
  map_option, lookup-map_values, map_values-Distinct, ◌∙◌, beq_refl,
}
use automated_reconciliation.Common.Int.{
  ℤ, pos, negsuc, pos_part, neg_part, sub_ℕ, ◌-ℤ◌, ltb_ℤ, abs,
}
use automated_reconciliation.Common.Float.{Float}
use automated_reconciliation.Reconciliation.Equities.{OuterMerge, joined, Tolerances}
use automated_reconciliation.Reconciliation.Validation.{
  BarKey, Bar, RawBar, Frame, required_columns,
}
use automated_reconciliation.Reconciliation.Equities.Pairs.{PairRow, reconcile_equity_sources}

abbrev pub times : ℤ → ℤ → ℤ
times (pos a) (pos b) = pos (a * b)
times (pos a) (negsuc b) = sub_ℕ 0 (a * suc b)
times (negsuc a) (pos b) = sub_ℕ 0 (suc a * b)
times (negsuc a) (negsuc b) = pos (suc a * suc b)

pub ltb_connex : (a b : ℤ) → ltb_ℤ a b ≡ false → ltb_ℤ b a ≡ false → a ≡ b
ltb_connex (pos a) (pos b) h k = ground arith
ltb_connex (pos a) (negsuc b) h k = ground arith
ltb_connex (negsuc a) (pos b) h k = ground arith
ltb_connex (negsuc a) (negsuc b) h k = ground arith

pub ltb_irrefl : (a : ℤ) → ltb_ℤ a a ≡ false
ltb_irrefl a = ground arith

pub ltb_trans : (a b c : ℤ) → ltb_ℤ a b ≡ true → ltb_ℤ b c ≡ true → ltb_ℤ a c ≡ true
ltb_trans a b c h k = ground arith

pub not_ltb_trans : (a b c : ℤ) → ltb_ℤ b a ≡ false → ltb_ℤ c b ≡ false → ltb_ℤ c a ≡ false
not_ltb_trans a b c h k = ground arith

pub abs-sub_ℤ : (a b : ℤ) → abs (a -ℤ b) ≡ abs (b -ℤ a)
unfolding ◌-ℤ◌
abs-sub_ℤ a b = ground arith

pub sub_self_ℤ : (a : ℤ) → abs (a -ℤ a) ≡ pos 0
unfolding ◌-ℤ◌
sub_self_ℤ a = ground arith

-- Integers, as numbers of the smallest unit.
abbrev pub units : Float
units = record {
  Num = ℤ;
  zero = pos 0;
  sub = ◌-ℤ◌;
  mul = times;
  abs = abs;
  lt = ltb_ℤ;
  is_finite = λ _. true;
  lt_irrefl = ltb_irrefl;
  lt_trans = ltb_trans;
  not_lt_trans = not_ltb_trans;
  lt_connex = ltb_connex;
  abs-sub = abs-sub_ℤ;
  sub_self = sub_self_ℤ;
}

abbrev pub only_right : {V : Type 0} → V → Option V × Option V
only_right v = (none, some v)

joined-none : {V : Type 0} (o : Option V) → map_option only_right o ≡ joined none o
joined-none none = refl
joined-none (some v) = refl

module _ {K V : Type 0} ⦃e : Eq K⦄ where
  -- The keys of the left side, each with what the right has for it, and then the rest of the right.
  unfoldable pub join_outer : Dict K V → Dict K V → Dict K (Option V × Option V)
  join_outer [] r = map_values only_right r
  join_outer ((k, v) ∷ l) r = (k, (some v, lookup k r)) ∷ join_outer l (remove k r)

  pub lookup-join_outer :
      (l r : Dict K V) (k : K) → lookup k (join_outer l r) ≡ joined (lookup k l) (lookup k r)
  unfolding join_outer
  lookup-join_outer [] r k = lookup-map_values only_right k r ∙ joined-none (lookup k r)
  lookup-join_outer ((j, v) ∷ l) r k = elim (Bool-cases (k == j)) [
    | inl same ↦ rw (same, beq_eq k j same) refl
    | inr other ↦
        rw (other) (lookup-join_outer l (remove j r) k ∙ rw (lookup-remove k j r, other) refl)
  ]

  remove-Distinct : (k : K) (d : Dict K V) → Distinct d → Distinct (remove k d)
  remove-Distinct k [] h = tt
  remove-Distinct k ((j, v) ∷ d) h = elim (Bool-cases (k == j)) [
    | inl same ↦ rw (same) (remove-Distinct k d h.1)
    | inr other ↦ rw (other) (ground (arith, lookup-remove j k d, h.0), remove-Distinct k d h.1)
  ]

  pub join_outer-Distinct : (l r : Dict K V) → Distinct r → Distinct l → Distinct (join_outer l r)
  unfolding join_outer
  join_outer-Distinct [] r h k = map_values-Distinct only_right r h
  join_outer-Distinct ((j, v) ∷ l) r h k = (
    rw (lookup-join_outer l (remove j r) j, k.0, lookup-remove j j r, beq_refl j) refl,
    join_outer-Distinct l (remove j r) (remove-Distinct j r h) k.1,
  )

  abbrev pub outer_merge : OuterMerge K V
  outer_merge = record {
    merge = join_outer;
    merge-Distinct = λ l r h k. join_outer-Distinct l r k h;
    lookup-merge = λ l r h k key. lookup-join_outer l r key;
  }

-- A date is its first character.
abbrev pub parse_date : Text → Option ℕ
parse_date [] = none
parse_date (c ∷ cs) = some c

abbrev pub value_or {ℓ κ} : {E : Type ℓ} {A : Type κ} → A → Result E A → A
value_or a (ok b) = b
value_or a (err e) = a

abbrev pub bar : Text → Text → ℕ → RawBar units
bar symbol date close = record {
  symbol = some symbol;
  trade_date = some date;
  open_ = some (pos 90);
  high = some (pos 200);
  low = some (pos 80);
  close = some (pos close);
  volume = some (pos 1000);
}

abbrev pub frame : List (RawBar units) → Frame units
frame rows = record { columns = required_columns; is_numeric = λ _. true; rows = rows }

abbrev pub yahoo : Frame units
yahoo = frame (bar (text " spy ") (text "1") 100 ∷ bar (text "QQQ") (text "1") 100 ∷ [])

abbrev pub alpaca : Frame units
alpaca = frame (bar (text "IWM") (text "1") 100 ∷ bar (text "SPY") (text "1") 105 ∷ [])

abbrev pub tolerances : Tolerances units
tolerances = record {
  close_tolerance = pos 3;
  warn_tolerance = some (pos 1);
  break_pct_tolerance = none;
  warn_pct_tolerance = none;
}

abbrev pub providers : List (Text × Frame units)
providers = (text "yahoo", yahoo) ∷ (text "alpaca", alpaca) ∷ []

abbrev pub pairwise : List (PairRow units)
pairwise = value_or [] (reconcile_equity_sources units parse_date outer_merge tolerances providers)
