-- ===== src/Reconciliation/Validation/Dates.antt =====
-- The validation of reconciliation_engine/reconciliation/equities.py reads a date only by what it parses as: a valid frame stays valid when its
-- dates are written in another way.
use automated_reconciliation.Common.{
  ℕ, ◌≡◌, refl, ◌∙◌, Bool, Option, none, some, List, [], ◌∷◌, map, Text, is_empty, strip, normalize,
  Dict, lookup, map_option, map_values, lookup-map_values, is_some, any_of, nat_eq, list_eq,
  pair_eq, Result, ok, err, raise_if, >>=-eq-ok, Option-cases, inl, inr, Eq,
}
use automated_reconciliation.Common.Float.{Float}
use automated_reconciliation.Reconciliation.Validation.{
  BarKey, RawBar, Bar, Frame, ValidationError, complete, complete_all, key_all, check_bars,
  has_duplicates, null_values, invalid_date, validate_equity_bars, is_missing, required_columns,
  missing_columns, empty_symbol, is_negative, has_negative_price, violates_ohlc,
}
use automated_reconciliation.Reconciliation.Validation.Consistent.{guard-eq-ok}

is_some-map_option :
    {V W : Type 0} (f : V → W) (o : Option V) → is_some (map_option f o) ≡ is_some o
is_some-map_option f none = refl
is_some-map_option f (some v) = refl

has_duplicates-map_values :
    {K V : Type 0} ⦃e : Eq K⦄ (f : V → V) (d : Dict K V)
    → has_duplicates (map_values f d) ≡ has_duplicates d
unfolding has_duplicates
has_duplicates-map_values f [] = refl
has_duplicates-map_values f ((k, v) ∷ d) =
    rw (lookup-map_values f k d, is_some-map_option f (lookup k d), has_duplicates-map_values f d)
      refl

map-same :
    {A B : Type 0} (f : A → A) (g : A → B)
    → ((x : A) → g (f x) ≡ g x)
    → (xs : List A) → map g (map f xs) ≡ map g xs
map-same f g h [] = refl
map-same f g h (x ∷ xs) = rw (h x, map-same f g h xs) refl

any_of-same :
    {A : Type 0} (f : A → A) (p : A → Bool)
    → ((x : A) → p (f x) ≡ p x)
    → (xs : List A) → any_of p (map f xs) ≡ any_of p xs
any_of-same f p h [] = refl
any_of-same f p h (x ∷ xs) = rw (h x, any_of-same f p h xs) refl

module _ (F : Float) (parse_date : Text → Option ℕ) (read_date : Text → Text) where
  -- A row, and a bar, with its date written in another way.
  abbrev pub read_row : RawBar F → RawBar F
  read_row r = record r { trade_date = map_option read_date r.trade_date }

  abbrev read_bar : Bar F → Bar F
  read_bar b = record b { trade_date = read_date b.trade_date }

  complete-read_row :
      (s d : Option Text) (o h l c v : Option F.Num)
      → let r : RawBar F = record {
        symbol = s;
        trade_date = d;
        open_ = o;
        high = h;
        low = l;
        close = c;
        volume = v;
      } in
        complete F (read_row r) ≡ map_option read_bar (complete F r)
  unfolding complete
  complete-read_row none d o h l c v = refl
  complete-read_row (some s) none o h l c v = refl
  complete-read_row (some s) (some d) none h l c v = refl
  complete-read_row (some s) (some d) (some o) none l c v = refl
  complete-read_row (some s) (some d) (some o) (some h) none c v = refl
  complete-read_row (some s) (some d) (some o) (some h) (some l) none v = refl
  complete-read_row (some s) (some d) (some o) (some h) (some l) (some c) none = refl
  complete-read_row (some s) (some d) (some o) (some h) (some l) (some c) (some v) = refl

  complete_all-read_row :
      (rows : List (RawBar F)) (bars : List (Bar F))
      → complete_all F rows ≡ ok bars
      → complete_all F (map read_row rows) ≡ ok (map read_bar bars)
  unfolding complete_all
  complete_all-read_row [] bars h = let none_left : bars ≡ [] = cc in rw none_left refl
  complete_all-read_row (r ∷ rows) bars h = elim (Option-cases (complete F r)) [
    | inl null ↦ absurd (no_error (rw (null, complete_all) at h))
    | inr (b, e) ↦
        let (rest, tail, last) = >>=-eq-ok (complete_all F rows) _ (rw (e, complete_all) at h) in
        let head : complete F (read_row r) ≡ some (read_bar b) =
          complete-read_row r.symbol r.trade_date r.open_ r.high r.low r.close r.volume
          ∙ rw e refl in
        let same : b ∷ rest ≡ bars = cc in
        rw (← same, head, complete_all, complete_all-read_row rows rest tail) refl
  ]
    where
      no_error : ◌≡◌ {A = Result ValidationError (List (Bar F))} (err null_values) (ok bars) → ⊥
      no_error e = cc

  key_all-read_bar :
      ((date : Text) → parse_date (read_date date) ≡ parse_date date)
      → (bars : List (Bar F)) (keyed : Dict BarKey (Bar F)) → key_all F parse_date bars ≡ ok keyed
      → key_all F parse_date (map read_bar bars) ≡ ok (map_values read_bar keyed)
  unfolding key_all
  key_all-read_bar reads [] keyed h = let none_left : keyed ≡ [] = cc in rw none_left refl
  key_all-read_bar reads (b ∷ bars) keyed h = elim (Option-cases (parse_date b.trade_date)) [
    | inl invalid ↦ absurd (no_error (rw (invalid, key_all) at h))
    | inr (date, e) ↦
        let (rest, tail, last) = >>=-eq-ok (key_all F parse_date bars) _ (rw (e, key_all) at h) in
        let same : ((normalize b.symbol, date), b) ∷ rest ≡ keyed = cc in
        rw (← same, reads b.trade_date, e, key_all-read_bar reads bars rest tail) refl
  ]
    where
      no_error :
          ◌≡◌ {A = Result ValidationError (Dict BarKey (Bar F))} (err invalid_date) (ok keyed) → ⊥
      no_error e = cc

  check_bars-read_bar :
      (is_numeric : Text → Bool) (bars : List (Bar F)) (keyed : Dict BarKey (Bar F))
      → check_bars F is_numeric (map read_bar bars) (map_values read_bar keyed)
        ≡ check_bars F is_numeric bars keyed
  unfolding check_bars
  check_bars-read_bar is_numeric bars keyed =
      rw
        (
          map-same read_bar (λ (b : Bar F). b.open_) (λ b. refl) bars,
          map-same read_bar (λ (b : Bar F). b.high) (λ b. refl) bars,
          map-same read_bar (λ (b : Bar F). b.low) (λ b. refl) bars,
          map-same read_bar (λ (b : Bar F). b.close) (λ b. refl) bars,
          map-same read_bar (λ (b : Bar F). b.volume) (λ b. refl) bars,
          any_of-same read_bar (has_negative_price F) (λ b. refl) bars,
          any_of-same read_bar (λ (b : Bar F). is_negative F b.volume) (λ b. refl) bars,
          any_of-same read_bar (violates_ohlc F) (λ b. refl) bars,
          has_duplicates-map_values read_bar keyed,
        )
        refl

  -- A valid frame is valid with its dates written in another way that parses as the same dates.
  pub validate_equity_bars-read_row :
      (frame : Frame F) (keyed : Dict BarKey (Bar F))
      → ((date : Text) → parse_date (read_date date) ≡ parse_date date)
      → validate_equity_bars F parse_date frame ≡ ok keyed
      → validate_equity_bars F parse_date (record frame { rows = map read_row frame.rows })
        ≡ ok (map_values read_bar keyed)
  unfolding validate_equity_bars
  validate_equity_bars-read_row frame keyed reads h =
      let (_, m, h₁) =
        >>=-eq-ok (raise_if (any_of (is_missing frame.columns) required_columns) missing_columns) _
          h in
      let (bars, c, h₂) = >>=-eq-ok (complete_all F frame.rows) _ h₁ in
      let (_, s, h₃) =
        >>=-eq-ok (raise_if (any_of (λ (b : Bar F). is_empty (strip b.symbol)) bars) empty_symbol) _
          h₂ in
      let (keyed', k, h₄) = >>=-eq-ok (key_all F parse_date bars) _ h₃ in
      let (_, checked, last) = >>=-eq-ok (check_bars F frame.is_numeric bars keyed') _ h₄ in
      let same : keyed' ≡ keyed = cc in
      rw
        (
          guard-eq-ok (any_of (is_missing frame.columns) required_columns) missing_columns m,
          complete_all-read_row frame.rows bars c,
          any_of-same read_bar (λ (b : Bar F). is_empty (strip b.symbol)) (λ b. refl) bars,
          guard-eq-ok (any_of (λ (b : Bar F). is_empty (strip b.symbol)) bars) empty_symbol s,
          key_all-read_bar reads bars keyed' k,
          check_bars-read_bar frame.is_numeric bars keyed',
          checked,
          same,
        )
        refl
