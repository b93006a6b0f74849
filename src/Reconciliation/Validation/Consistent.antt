-- ===== src/Reconciliation/Validation/Consistent.antt =====
-- What a frame that passes the validation is.
use automated_reconciliation.Common.{
  Eq, Distinct, ℕ, ◌≡◌, refl, sym, ap, ◌∙◌, Bool, true, false, ◌||◌, not, Option, none, some, List,
  [], ◌∷◌, map, Text, is_empty, strip, normalize, Dict, lookup, nat_eq, list_eq, pair_eq, Result,
  ok, err, raise_if, any_of, is_some, All, arith, Bool-cases, inl, inr, >>=-eq-ok, Option-cases,
}
use automated_reconciliation.Common.Float.{
  Float, maximum, minimum, le, maximum-bound, minimum-bound,
}
use automated_reconciliation.Reconciliation.Validation.{
  BarKey, ValidationError, invalid_date, is_missing, required_columns, missing_columns,
  empty_symbol, has_duplicates, Bar, Frame, complete_all, key_all, validate_equity_bars,
  is_negative, has_negative_price, violates_ohlc, check_bars, RawBar, complete, null_values,
}

none_of_is_some : {V : Type 0} (o : Option V) → is_some o ≡ false → o ≡ none
none_of_is_some none h = refl
none_of_is_some (some v) h = cc

pub has_duplicates-Distinct :
    {K V : Type 0} ⦃e : Eq K⦄ (d : Dict K V) → has_duplicates d ≡ false → Distinct d
unfolding has_duplicates
has_duplicates-Distinct [] h = tt
has_duplicates-Distinct ((k, v) ∷ d) h = elim (Bool-cases (has_duplicates d)) [
  | inl more ↦ ground arith
  | inr less ↦ (none_of_is_some (lookup k d) (ground arith), has_duplicates-Distinct d less)
]

true_of_not : {x : Bool} → not x ≡ false → x ≡ true
true_of_not h = ground arith

or-eq-false : {x y : Bool} → (x || y) ≡ false → (x ≡ false) × (y ≡ false)
or-eq-false h = ground arith

pub guard-eq-ok : {E : Type 0} (b : Bool) (e : E) {u : Unit} → raise_if b e ≡ ok u → b ≡ false
guard-eq-ok true e h = cc
guard-eq-ok false e h = refl

module _ (F : Float) where
  -- What one bar of a valid frame satisfies: finite numbers, none negative, and low and high on the right
  -- sides of the open and of the close.
  pub record IsConsistent (b : Bar F) : Type 0 where
    pub named : is_empty (strip b.symbol) ≡ false
    pub low-le-open : le F b.low b.open_ ≡ true
    pub low-le-close : le F b.low b.close ≡ true
    pub open-le-high : le F b.open_ b.high ≡ true
    pub close-le-high : le F b.close b.high ≡ true
    pub low_nonneg : le F F.zero b.low ≡ true
    pub volume_nonneg : le F F.zero b.volume ≡ true
    pub finite_close : F.is_finite b.close ≡ true
    pub finite_volume : F.is_finite b.volume ≡ true

  violates_ohlc_sound :
      (b : Bar F)
      → violates_ohlc F b ≡ false
      → (le F b.low b.open_ ≡ true)
        × (le F b.low b.close ≡ true)
        × (le F b.open_ b.high ≡ true)
        × (le F b.close b.high ≡ true)
  violates_ohlc_sound b h =
      let (top, bottom) = or-eq-false h in
      let (outer, _) = maximum-bound F (maximum F b.open_ b.close) b.low b.high top in
      let (p, q) = maximum-bound F b.open_ b.close b.high outer in
      let (inner, _) = minimum-bound F (minimum F b.open_ b.close) b.high b.low bottom in
      let (r, s) = minimum-bound F b.open_ b.close b.low inner in ground arith

  -- What the tests of `check_bars` have found, when it returns.
  record Passed (bars : List (Bar F)) (keyed : Dict BarKey (Bar F)) : Type 0 where
    at_closes : any_of (λ v. not (F.is_finite v)) (map (λ (b : Bar F). b.close) bars) ≡ false
    at_volumes : any_of (λ v. not (F.is_finite v)) (map (λ (b : Bar F). b.volume) bars) ≡ false
    at_prices : any_of (has_negative_price F) bars ≡ false
    at_volume_signs : any_of (λ (b : Bar F). is_negative F b.volume) bars ≡ false
    at_ohlc : any_of (violates_ohlc F) bars ≡ false
    at_duplicates : has_duplicates keyed ≡ false

  check_bars-Passed :
      (is_numeric : Text → Bool) (bars : List (Bar F)) (keyed : Dict BarKey (Bar F))
      → check_bars F is_numeric bars keyed ≡ ok tt
      → Passed bars keyed
  unfolding check_bars
  check_bars-Passed is_numeric bars keyed h = ground arith

  -- An entry under its business key.
  abbrev pub IsKeyed : (Text → Option ℕ) → BarKey × Bar F → Type 0
  IsKeyed parse_date ((symbol, date), b) =
      (symbol ≡ normalize b.symbol) × (parse_date b.trade_date ≡ some date)

  bar-IsConsistent :
      (b : Bar F)
      → is_empty (strip b.symbol) ≡ false
      → F.is_finite b.close ≡ true
      → F.is_finite b.volume ≡ true
      → has_negative_price F b ≡ false
      → is_negative F b.volume ≡ false
      → violates_ohlc F b ≡ false
      → IsConsistent b
  bar-IsConsistent b named c v p q o =
      let (w, x, y, z) = violates_ohlc_sound b o in
      record {
        named = named;
        low-le-open = w;
        low-le-close = x;
        open-le-high = y;
        close-le-high = z;
        low_nonneg = ground arith;
        volume_nonneg = ground arith;
        finite_close = c;
        finite_volume = v;
      }

  bars-IsConsistent :
      (bars : List (Bar F))
      → any_of (λ (b : Bar F). is_empty (strip b.symbol)) bars ≡ false
      → any_of (λ v. not (F.is_finite v)) (map (λ (b : Bar F). b.close) bars) ≡ false
      → any_of (λ v. not (F.is_finite v)) (map (λ (b : Bar F). b.volume) bars) ≡ false
      → any_of (has_negative_price F) bars ≡ false
      → any_of (λ (b : Bar F). is_negative F b.volume) bars ≡ false
      → any_of (violates_ohlc F) bars ≡ false
      → All IsConsistent bars
  bars-IsConsistent [] s c v p q o = tt
  bars-IsConsistent (b ∷ bars) s c v p q o =
      let (s₁, s₂) = or-eq-false s in
      let (c₁, c₂) = or-eq-false c in
      let (v₁, v₂) = or-eq-false v in
      let (p₁, p₂) = or-eq-false p in
      let (q₁, q₂) = or-eq-false q in
      let (o₁, o₂) = or-eq-false o in
      (
        bar-IsConsistent b s₁ (true_of_not c₁) (true_of_not v₁) p₁ q₁ o₁,
        bars-IsConsistent bars s₂ c₂ v₂ p₂ q₂ o₂,
      )

  abbrev Checked : (Text → Option ℕ) → BarKey × Bar F → Type 0
  Checked parse_date e = IsConsistent e.1 × IsKeyed parse_date e

  key_all-Checked :
      (parse_date : Text → Option ℕ) (bars : List (Bar F)) (keyed : Dict BarKey (Bar F))
      → key_all F parse_date bars ≡ ok keyed
      → All IsConsistent bars
      → All (Checked parse_date) keyed
  unfolding key_all
  key_all-Checked parse_date [] keyed h c = rw (keyed_nil h) tt
    where
      keyed_nil :
          ◌≡◌ {A = Result ValidationError (Dict BarKey (Bar F))} (ok []) (ok keyed) → keyed ≡ []
      keyed_nil e = cc
  key_all-Checked parse_date (b ∷ bars) keyed h c = elim (Option-cases (parse_date b.trade_date)) [
    | inl invalid ↦ absurd (no_error (rw (invalid, key_all) at h))
    | inr (date, e) ↦
        let (rest, keys, last) = >>=-eq-ok (key_all F parse_date bars) _ (rw (e, key_all) at h) in
        rw (sym (keyed_cons last)) ((c.0, (refl, e)), key_all-Checked parse_date bars rest keys c.1)
  ]
    where
      no_error :
          ◌≡◌ {A = Result ValidationError (Dict BarKey (Bar F))} (err invalid_date) (ok keyed) → ⊥
      no_error e = cc

      keyed_cons :
          {x : Dict BarKey (Bar F)}
          → ◌≡◌ {A = Result ValidationError (Dict BarKey (Bar F))} (ok x) (ok keyed)
          → x ≡ keyed
      keyed_cons e = cc

  -- The row of a frame that has all the cells of a bar.
  abbrev pub raw_of : Bar F → RawBar F
  raw_of b = record {
    symbol = some b.symbol;
    trade_date = some b.trade_date;
    open_ = some b.open_;
    high = some b.high;
    low = some b.low;
    close = some b.close;
    volume = some b.volume;
  }

  complete-raw_of :
      (s d : Option Text) (o h l c v : Option F.Num) (b : Bar F)
      → let r : RawBar F = record {
        symbol = s;
        trade_date = d;
        open_ = o;
        high = h;
        low = l;
        close = c;
        volume = v;
      } in
        complete F r ≡ some b → r ≡ raw_of b
  unfolding complete
  complete-raw_of none d o h l c v b e = cc
  complete-raw_of (some s) none o h l c v b e = cc
  complete-raw_of (some s) (some d) none h l c v b e = cc
  complete-raw_of (some s) (some d) (some o) none l c v b e = cc
  complete-raw_of (some s) (some d) (some o) (some h) none c v b e = cc
  complete-raw_of (some s) (some d) (some o) (some h) (some l) none v b e = cc
  complete-raw_of (some s) (some d) (some o) (some h) (some l) (some c) none b e = cc
  complete-raw_of (some s) (some d) (some o) (some h) (some l) (some c) (some v) b e =
      ap (map_or_raw s) e
    where
      map_or_raw : Text → Option (Bar F) → RawBar F
      map_or_raw s none = raw_of (record {
        symbol = s;
        trade_date = d;
        open_ = o;
        high = h;
        low = l;
        close = c;
        volume = v;
      })
      map_or_raw s (some b) = raw_of b

  complete_all-raw_of :
      (rows : List (RawBar F)) (bars : List (Bar F))
      → complete_all F rows ≡ ok bars
      → rows ≡ map raw_of bars
  unfolding complete_all
  complete_all-raw_of [] bars h = cc
  complete_all-raw_of (r ∷ rows) bars h = elim (Option-cases (complete F r)) [
    | inl null ↦ absurd (no_error (rw (null, complete_all) at h))
    | inr (b, e) ↦
        let (rest, tail, last) = >>=-eq-ok (complete_all F rows) _ (rw (e, complete_all) at h) in
        let head =
          complete-raw_of r.symbol r.trade_date r.open_ r.high r.low r.close r.volume b e in
        let same : b ∷ rest ≡ bars = cc in
        rw (← same, ← complete_all-raw_of rows rest tail, ← head) refl
  ]
    where
      no_error : ◌≡◌ {A = Result ValidationError (List (Bar F))} (err null_values) (ok bars) → ⊥
      no_error e = cc

  key_all-bars :
      (parse_date : Text → Option ℕ) (bars : List (Bar F)) (keyed : Dict BarKey (Bar F))
      → key_all F parse_date bars ≡ ok keyed
      → map raw_of bars ≡ map (λ e. raw_of e.1) keyed
  unfolding key_all
  key_all-bars parse_date [] keyed h = cc
  key_all-bars parse_date (b ∷ bars) keyed h = elim (Option-cases (parse_date b.trade_date)) [
    | inl invalid ↦ absurd (no_error (rw (invalid, key_all) at h))
    | inr (date, e) ↦
        let (rest, tail, last) = >>=-eq-ok (key_all F parse_date bars) _ (rw (e, key_all) at h) in
        let same : ((normalize b.symbol, date), b) ∷ rest ≡ keyed = cc in
        rw (← same, key_all-bars parse_date bars rest tail) refl
  ]
    where
      no_error :
          ◌≡◌ {A = Result ValidationError (Dict BarKey (Bar F))} (err invalid_date) (ok keyed) → ⊥
      no_error e = cc

  valid_rows :
      (parse_date : Text → Option ℕ) (is_numeric : Text → Bool) (bars : List (Bar F))
      (keyed keyed' : Dict BarKey (Bar F)) {u : Unit}
      → any_of (λ (b : Bar F). is_empty (strip b.symbol)) bars ≡ false
      → key_all F parse_date bars ≡ ok keyed'
      → check_bars F is_numeric bars keyed' ≡ ok u
      → ◌≡◌ {A = Result ValidationError (Dict BarKey (Bar F))} (ok keyed') (ok keyed)
      → Distinct keyed × All (Checked parse_date) keyed
  valid_rows parse_date is_numeric bars keyed keyed' s k checked last =
      let same : keyed' ≡ keyed = cc in
      let p = check_bars-Passed is_numeric bars keyed' checked in
      let all =
        bars-IsConsistent bars s p.at_closes p.at_volumes p.at_prices p.at_volume_signs p.at_ohlc in
      rw (← same) (
        has_duplicates-Distinct keyed' p.at_duplicates,
        key_all-Checked parse_date bars keyed' k all,
      )

  -- What the entries of a valid frame are: no business key stands twice; the rows of the frame, in their order, have all their cells,
  -- which are those of the entries; every entry stands under its own normalized key, and every bar is consistent.
  abbrev pub AreEntries : (Text → Option ℕ) → Frame F → Dict BarKey (Bar F) → Type 0
  AreEntries parse_date frame keyed =
      Distinct keyed
      × (frame.rows ≡ map (λ e. raw_of e.1) keyed)
      × All (λ e. IsConsistent e.1 × IsKeyed parse_date e) keyed

  -- If `validate_equity_bars` returns, no row of the frame has a null; the entries are the rows of the frame, in their order, each
  -- under its own normalized key; no business key stands twice, and every bar is consistent.
  pub validate_equity_bars_sound :
      (parse_date : Text → Option ℕ) (frame : Frame F) (keyed : Dict BarKey (Bar F))
      → validate_equity_bars F parse_date frame ≡ ok keyed
      → AreEntries parse_date frame keyed
  unfolding validate_equity_bars
  validate_equity_bars_sound parse_date frame keyed h =
      let (_, _, h₁) =
        >>=-eq-ok (raise_if (any_of (is_missing frame.columns) required_columns) missing_columns) _
          h in
      let (bars, c, h₂) = >>=-eq-ok (complete_all F frame.rows) _ h₁ in
      let (_, s, h₃) =
        >>=-eq-ok (raise_if (any_of (λ (b : Bar F). is_empty (strip b.symbol)) bars) empty_symbol) _
          h₂ in
      let (keyed', k, h₄) = >>=-eq-ok (key_all F parse_date bars) _ h₃ in
      let (_, checked, last) = >>=-eq-ok (check_bars F frame.is_numeric bars keyed') _ h₄ in
      let (distinct, all) =
        valid_rows parse_date frame.is_numeric bars keyed keyed'
          (guard-eq-ok (any_of (λ (b : Bar F). is_empty (strip b.symbol)) bars) empty_symbol s) k
          checked last in
      let same : keyed' ≡ keyed = cc in
      (
        distinct,
        complete_all-raw_of frame.rows bars c
            ∙ key_all-bars parse_date bars keyed' k
            ∙ ap (map (λ (e : BarKey × Bar F). raw_of e.1)) same,
        all,
      )
