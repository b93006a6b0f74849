-- ===== src/Scaling/Partitions/Coverage.antt =====
-- How often a symbol is asked of a provider by the partitions of `build_work_partitions`.
use automated_reconciliation.Common.{
  occurrences-append, ℕ, ◌+◌, ◌≡◌, refl, ap, ◌∙◌, ◌&&◌, none, List, [], ◌∷◌, ◌++◌, map,
  if◌then◌else◌, Text, normalize, lookup, insert, Distinct, insert-Distinct, ◌==◌, nat_eq, list_eq,
  contains, beq_refl, ok, unique, sort, occurrences, occurrences-unique, occurrences-sort, arith,
  nat_order, list_order, Order, insert_sorted, >>=-eq-ok, raise_if,
}
use automated_reconciliation.Common.Int.{ℤ}
use automated_reconciliation.Scaling.Partitions.{
  WorkPartition, Buckets, keys_of, bucket_symbols, append_symbol, symbol_bucket, fill_buckets,
  partition_of, partitions_of, build_work_partitions, is_nil, normalized_symbols,
  normalized_providers, no_symbols, no_providers,
}

-- How often a symbol stands in the partitions of a provider.
abbrev pub assigned : Text → Text → List WorkPartition → ℕ
assigned symbol provider [] = 0
assigned symbol provider (w ∷ ws) =
    (if provider == w.provider then occurrences symbol w.symbols else 0)
    + assigned symbol provider ws

abbrev pub sum_of {ℓ} : {A : Type ℓ} → (A → ℕ) → List A → ℕ
sum_of f [] = 0
sum_of f (x ∷ xs) = f x + sum_of f xs

module _ {ℓ} {A : Type ℓ} ⦃o : Order A⦄ where
  sum_of-insert_sorted :
      (f : A → ℕ) (x : A) (l : List A) → sum_of f (insert_sorted x l) ≡ f x + sum_of f l
  sum_of-insert_sorted f x [] = refl
  sum_of-insert_sorted f x (y ∷ l) = ground (arith, sum_of-insert_sorted f x l)

  sum_of-sort : (f : A → ℕ) (l : List A) → sum_of f (sort l) ≡ sum_of f l
  sum_of-sort f [] = refl
  sum_of-sort f (x ∷ l) = ground (arith, sum_of-insert_sorted f x (sort l), sum_of-sort f l)

assigned-append :
    (s p : Text) (l r : List WorkPartition)
    → assigned s p (l ++ r) ≡ assigned s p l + assigned s p r
assigned-append s p [] r = omega arith
assigned-append s p (x ∷ l) r = omega (arith, assigned-append s p l r)

-- How often a symbol stands in the buckets.
abbrev in_buckets : Text → Buckets → ℕ
in_buckets s [] = 0
in_buckets s ((b, l) ∷ d) = occurrences s l + in_buckets s d

in_buckets-insert :
    (s x : Text) (b : ℕ) (old : List Text) (d : Buckets)
    → bucket_symbols d b ≡ old
    → in_buckets s (insert b (old ++ x ∷ []) d) ≡ in_buckets s d + occurrences s (x ∷ [])
in_buckets-insert s x b old [] h =
    ground (arith, occurrences-append s old (x ∷ []), ap (occurrences s) h)
in_buckets-insert s x b old ((c, l) ∷ d) h =
    ground (
      arith,
      occurrences-append s old (x ∷ []),
      ap (occurrences s) h,
      in_buckets-insert s x b old d,
    )

module _ (digest : Text → ℕ) where
  fill_buckets-in_buckets :
      (count : ℤ) (symbols : List Text) (d d' : Buckets)
      → fill_buckets digest count symbols d ≡ ok d'
      → Distinct d
      → Distinct d' × ((s : Text) → in_buckets s d' ≡ in_buckets s d + occurrences s symbols)
  unfolding fill_buckets
  fill_buckets-in_buckets count [] d d' h k =
      let same : d ≡ d' = cc in rw (← same) (k, λ s. ground arith)
  fill_buckets-in_buckets count (x ∷ symbols) d d' h k =
      let (b, at, rest) = >>=-eq-ok (symbol_bucket digest x count) _ h in
      let (distinct, sums) =
        fill_buckets-in_buckets count symbols (append_symbol b x d) d' rest
          (insert-Distinct b (bucket_symbols d b ++ x ∷ []) d k) in
      (distinct, λ s. ground (arith, sums s, in_buckets-insert s x b (bucket_symbols d b) d refl))

-- The symbols of a bucket that is not in front.
bucket_symbols_behind :
    (s : Text) (c : ℕ) (l : List Text) (d full : Buckets)
    → lookup c d ≡ none
    → sum_of (λ b. occurrences s (bucket_symbols ((c, l) ∷ full) b)) (keys_of d)
      ≡ sum_of (λ b. occurrences s (bucket_symbols full b)) (keys_of d)
bucket_symbols_behind s c l [] full h = refl
bucket_symbols_behind s c l ((b, m) ∷ d) full h = ground (arith, bucket_symbols_behind s c l d full)

in_buckets-keys_of :
    (s : Text) (d : Buckets)
    → Distinct d
    → sum_of (λ b. occurrences s (bucket_symbols d b)) (keys_of d) ≡ in_buckets s d
in_buckets-keys_of s [] h = refl
in_buckets-keys_of s ((c, l) ∷ d) h =
    ground (arith, bucket_symbols_behind s c l d d h.0, in_buckets-keys_of s d h.1, beq_refl c)

module _ (digest : Text → ℕ) (uuid5 : Text → Text) (isoformat : ℕ → Text) where
  module _ (run_id : Text) (date : ℕ) (instrument : Text) where
    assigned_others :
        (s p : Text) (b : ℕ) (l providers : List Text)
        → occurrences p providers ≡ 0
        → assigned s p
            (map (partition_of digest uuid5 isoformat run_id date instrument b l) providers)
          ≡ 0
    assigned_others s p b l [] h = refl
    assigned_others s p b l (q ∷ providers) h = ground (arith, assigned_others s p b l providers)

    assigned_once :
        (s p : Text) (b : ℕ) (l providers : List Text)
        → occurrences p providers ≡ 1
        → assigned s p
            (map (partition_of digest uuid5 isoformat run_id date instrument b l) providers)
          ≡ occurrences s l
    assigned_once s p b l [] h = ground arith
    assigned_once s p b l (q ∷ providers) h =
        ground (arith, assigned_others s p b l providers, assigned_once s p b l providers)

    assigned_none :
        (s p : Text) (providers : List Text) (d : Buckets) (buckets : List ℕ)
        → occurrences p providers ≡ 0
        → assigned s p
            (partitions_of digest uuid5 isoformat run_id date instrument providers d buckets)
          ≡ 0
    assigned_none s p providers d [] h = refl
    assigned_none s p providers d (b ∷ buckets) h =
        assigned-append s p
          (map (partition_of digest uuid5 isoformat run_id date instrument b (bucket_symbols d b))
            providers)
          (partitions_of digest uuid5 isoformat run_id date instrument providers d buckets)
        ∙ omega (
          arith,
          assigned_others s p b (bucket_symbols d b) providers h,
          assigned_none s p providers d buckets h,
        )

    assigned-partitions_of :
        (s p : Text) (providers : List Text) (d : Buckets) (buckets : List ℕ)
        → occurrences p providers ≡ 1
        → assigned s p
            (partitions_of digest uuid5 isoformat run_id date instrument providers d buckets)
          ≡ sum_of (λ b. occurrences s (bucket_symbols d b)) buckets
    assigned-partitions_of s p providers d [] h = refl
    assigned-partitions_of s p providers d (b ∷ buckets) h =
        assigned-append s p
          (map (partition_of digest uuid5 isoformat run_id date instrument b (bucket_symbols d b))
            providers)
          (partitions_of digest uuid5 isoformat run_id date instrument providers d buckets)
        ∙ omega (
          arith,
          assigned_once s p b (bucket_symbols d b) providers h,
          assigned-partitions_of s p providers d buckets h,
        )

  -- What a result of `build_work_partitions` comes from.
  pub build_work_partitions_inverts :
      (run_id : Text) (date : ℕ) (instrument : Text) (symbols providers : List Text) (count : ℤ)
      (ws : List WorkPartition)
      → build_work_partitions digest uuid5 isoformat run_id date instrument symbols providers count
        ≡ ok ws
      → (d : Buckets) × (fill_buckets digest count (normalized_symbols symbols) [] ≡ ok d)
        × (partitions_of digest uuid5 isoformat run_id date
              (normalize instrument)
              (normalized_providers providers)
              d
              (sort (keys_of d))
            ≡ ws)
  unfolding build_work_partitions
  build_work_partitions_inverts run_id date instrument symbols providers count ws h =
      let wanted : List Text = normalized_symbols symbols in
      let asked : List Text = normalized_providers providers in
      let (_, some_symbols, h₁) = >>=-eq-ok (raise_if (is_nil wanted) no_symbols) _ h in
      let (_, some_providers, h₂) = >>=-eq-ok (raise_if (is_nil asked) no_providers) _ h₁ in
      let (d, filled, h₃) = >>=-eq-ok (fill_buckets digest count wanted []) _ h₂ in (d, filled, cc)

  -- When `build_work_partitions` returns, a symbol stands in the partitions of a provider exactly once if both were asked
  -- for, up to case and surrounding white space, and never otherwise.
  pub assigned-build_work_partitions :
      (run_id : Text) (date : ℕ) (instrument : Text) (symbols providers : List Text) (count : ℤ)
      (ws : List WorkPartition)
      → build_work_partitions digest uuid5 isoformat run_id date instrument symbols providers count
        ≡ ok ws
      → (s p : Text)
      → assigned s p ws ≡ (
          if contains s (map normalize symbols) && contains p (map normalize providers)
          then 1
          else 0)
  assigned-build_work_partitions run_id date instrument symbols providers count ws h s p =
      let wanted : List Text = normalized_symbols symbols in
      let asked : List Text = normalized_providers providers in
      let (d, filled, made) =
        build_work_partitions_inverts run_id date instrument symbols providers count ws h in
      let (distinct, sums) = fill_buckets-in_buckets digest count wanted [] d filled tt in
      let total : sum_of (λ b. occurrences s (bucket_symbols d b)) (sort (keys_of d))
          ≡ (if contains s (map normalize symbols) then 1 else 0) =
        sum_of-sort (λ b. occurrences s (bucket_symbols d b)) (keys_of d)
        ∙ in_buckets-keys_of s d distinct
        ∙ ground (
          arith,
          sums s,
          occurrences-sort s (unique (map normalize symbols)),
          occurrences-unique s (map normalize symbols),
        ) in
      let often : occurrences p asked ≡ (if contains p (map normalize providers) then 1 else 0) =
        occurrences-unique p (map normalize providers) in
      rw (← made) (
        ground (
          arith,
          total,
          often,
          assigned_none run_id date (normalize instrument) s p asked d (sort (keys_of d)),
          assigned-partitions_of run_id date (normalize instrument) s p asked d (sort (keys_of d)),
        ))
