-- ===== src/Batch/Symbols/Normal.antt =====
-- What the symbols of a run look like, and on what its identifier depends.
use automated_reconciliation.Common.{
  ℕ, ◌≡◌, ◌≢◌, refl, sym, ap, ◌∙◌, true, false, not, List, [], ◌∷◌, ◌++◌, map, Text, is_empty,
  is_space, to_upper, lstrip, rstrip, strip, normalize, contains, any_of, ◌==◌, nat_eq, list_eq,
  All, All-append, Result, ok, err, >>=-eq-ok, arith, Bool-cases, inl, inr, Unrepeated,
  Unrepeated-snoc, Unrepeated-fresh, sort, sort_same, nat_order, list_order,
}
use mathlib.Core.List.{append_assoc, append-nil}
use automated_reconciliation.Batch.Symbols.{
  ConfigurationError, invalid_symbol, split_commas, is_symbol_character, is_symbol, append_new,
  add_candidates, add_values, some_symbols, normalize_symbols, build_run_id,
}

-- A text that `SYMBOL_PATTERN` matches.
abbrev pub IsSymbol : Text → Type 0
IsSymbol s = is_symbol s ≡ true

-- Symbols, none of which stands twice.
abbrev pub AreSymbols : List Text → Type 0
AreSymbols l = All IsSymbol l × Unrepeated l

append_new-AreSymbols :
    (s : Text) (l : List Text) → IsSymbol s → AreSymbols l → AreSymbols (append_new s l)
append_new-AreSymbols s l h k = elim (Bool-cases (contains s l)) [
  | inl old ↦ rw old k
  | inr new ↦ rw new (All-append IsSymbol l (s ∷ []) k.0 (h, tt), Unrepeated-snoc s l k.1 new)
]

add_candidates-AreSymbols :
    (candidates l l' : List Text)
    → add_candidates candidates l ≡ ok l'
    → AreSymbols l
    → AreSymbols l'
unfolding add_candidates
add_candidates-AreSymbols [] l l' h k = let same : l ≡ l' = cc in rw (← same) k
add_candidates-AreSymbols (c ∷ candidates) l l' h k = elim (Bool-cases (is_empty (normalize c))) [
  | inl none_ ↦ add_candidates-AreSymbols candidates l l' (rw (none_, add_candidates) at h) k
  | inr some_ ↦ elim (Bool-cases (is_symbol (normalize c))) [
    | inl good ↦
        add_candidates-AreSymbols candidates (append_new (normalize c) l) l'
          (rw (some_, good, add_candidates) at h) (append_new-AreSymbols (normalize c) l good k)
    | inr bad ↦ absurd (no_list (rw (some_, bad, add_candidates) at h))
  ]
]
  where
    no_list : ◌≡◌ {A = Result ConfigurationError (List Text)} (err invalid_symbol) (ok l') → ⊥
    no_list e = cc

add_values-AreSymbols :
    (values l l' : List Text) → add_values values l ≡ ok l' → AreSymbols l → AreSymbols l'
unfolding add_values
add_values-AreSymbols [] l l' h k = let same : l ≡ l' = cc in rw (← same) k
add_values-AreSymbols (v ∷ values) l l' h k =
    let (m, first, rest) = >>=-eq-ok (add_candidates (split_commas v) l) _ h in
    add_values-AreSymbols values m l' rest (add_candidates-AreSymbols (split_commas v) l m first k)

some_symbols-eq-ok : (l l' : List Text) → some_symbols l ≡ ok l' → (l ≡ l') × (l ≢ [])
some_symbols-eq-ok [] l' h = cc
some_symbols-eq-ok (x ∷ l) l' h = (cc, λ e. cc)

-- The symbols of `normalize_symbols` all match the pattern, none stands twice, and there is one.
pub normalize_symbols-AreSymbols :
    (values l : List Text) → normalize_symbols values ≡ ok l → AreSymbols l × (l ≢ [])
unfolding normalize_symbols
normalize_symbols-AreSymbols values l h =
    let (m, added, last) = >>=-eq-ok (add_values values []) _ h in
    let (same, some_) = some_symbols-eq-ok m l last in
    (rw (← same) (add_values-AreSymbols values [] m added (tt, λ x. refl)), rw (← same) some_)

-- What a character of a symbol is not.
character_lem :
    (c : ℕ)
    → is_symbol_character c ≡ true
    → ((c == 44) ≡ false) × (is_space c ≡ false) × (to_upper c ≡ c)
unfolding to_upper
character_lem c h = (ground (arith, h), ground (arith, h), ground (arith, h))

abbrev AreCharacters : Text → Type 0
AreCharacters s = All (λ c. is_symbol_character c ≡ true) s

IsSymbol-AreCharacters : (s : Text) → IsSymbol s → AreCharacters s
unfolding is_symbol
IsSymbol-AreCharacters [] h = tt
IsSymbol-AreCharacters (c ∷ s) h = (ground (arith, h), each s (ground (arith, h)))
  where
    each : (s : Text) → any_of (λ d. not (is_symbol_character d)) s ≡ false → AreCharacters s
    each [] h = tt
    each (d ∷ s) h = (ground (arith, h), each s (ground (arith, h)))

rstrip_characters : (s : Text) → AreCharacters s → rstrip s ≡ s
unfolding rstrip
rstrip_characters [] h = refl
rstrip_characters (c ∷ []) h = ground (arith, (character_lem c h.0).1)
rstrip_characters (c ∷ d ∷ s) h = rw (rstrip_characters (d ∷ s) h.1) refl

map_characters : (s : Text) → AreCharacters s → map to_upper s ≡ s
map_characters [] h = refl
map_characters (c ∷ s) h = rw ((character_lem c h.0).2, map_characters s h.1) refl

lstrip_characters : (s : Text) → AreCharacters s → lstrip s ≡ s
unfolding lstrip
lstrip_characters [] h = refl
lstrip_characters (c ∷ s) h = ground (arith, (character_lem c h.0).1)

normalize_characters : (s : Text) → AreCharacters s → normalize s ≡ s
unfolding normalize strip
normalize_characters s h = rw (lstrip_characters s h, rstrip_characters s h) (map_characters s h)

split_commas_characters : (s : Text) → AreCharacters s → split_commas s ≡ s ∷ []
split_commas_characters [] h = refl
split_commas_characters (c ∷ s) h = rw ((character_lem c h.0).0, split_commas_characters s h.1) refl

nonempty_lem : (s : Text) → IsSymbol s → is_empty s ≡ false
unfolding is_symbol
nonempty_lem [] h = cc
nonempty_lem (c ∷ s) h = refl

add_candidates_symbol :
    (s : Text) (acc : List Text)
    → IsSymbol s
    → contains s acc ≡ false
    → add_candidates (split_commas s) acc ≡ ok (acc ++ s ∷ [])
unfolding add_candidates
add_candidates_symbol s acc h new =
    let characters = IsSymbol-AreCharacters s h in
    let same = normalize_characters s characters in
    rw
      (
        split_commas_characters s characters,
        add_candidates,
        same,
        nonempty_lem s h,
        same,
        h,
        same,
        new,
      )
      refl

add_values-append :
    (l acc : List Text) → All IsSymbol l → Unrepeated (acc ++ l) → add_values l acc ≡ ok (acc ++ l)
unfolding add_values
add_values-append [] acc h k = rw (append-nil) refl
add_values-append (s ∷ l) acc h k =
    let assoc = append_assoc acc (s ∷ []) l in
    rw (add_candidates_symbol s acc h.0 (Unrepeated-fresh s acc l k))
      (add_values-append l (acc ++ s ∷ []) h.1 (rw assoc k) ∙ ap ok assoc)

-- Normalizing the symbols of a run once more changes nothing.
pub normalize_symbols-again :
    (values l : List Text) → normalize_symbols values ≡ ok l → normalize_symbols l ≡ ok l
unfolding normalize_symbols
normalize_symbols-again values l h =
    let ((symbols, once), some_) = normalize_symbols-AreSymbols values l h in
    rw (add_values-append l [] symbols once) (some_lem l some_)
  where
    some_lem : (l : List Text) → l ≢ [] → some_symbols l ≡ ok l
    some_lem [] h = absurd (h refl)
    some_lem (x ∷ l) h = refl

-- The identifier of a run depends on its symbols only as a set: two lists of values, of which `normalize_symbols` makes the
-- same symbols in whatever order, have the same identifier, for the same date and number of buckets.
pub build_run_id_set :
    (uuid5 : Text → Text) (isoformat : ℕ → Text) (values others l r : List Text) (date buckets : ℕ)
    → normalize_symbols values ≡ ok l
    → normalize_symbols others ≡ ok r
    → ((s : Text) → contains s l ≡ contains s r)
    → build_run_id uuid5 isoformat values date buckets
      ≡ build_run_id uuid5 isoformat others date buckets
unfolding build_run_id
build_run_id_set uuid5 isoformat values others l r date buckets h k same =
    let ((_, once), _) = normalize_symbols-AreSymbols values l h in
    let ((_, once'), _) = normalize_symbols-AreSymbols others r k in
    let sorted : sort l ≡ sort r = sort_same l r (λ s. once s ∙ rw (same s) refl ∙ sym (once' s)) in
    rw (h, k, sorted) refl
