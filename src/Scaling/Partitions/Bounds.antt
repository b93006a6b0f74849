-- ===== src/Scaling/Partitions/Bounds.antt =====
-- What each partition of `build_work_partitions` holds, and on what of the symbols the partitions depend.
use automated_reconciliation.Common.{
  ℕ, ◌<◌, ◌%◌, ◌≡◌, ◌≢◌, refl, false, none, some, List, [], ◌∷◌, ◌++◌, map, Text, normalize, Dict,
  lookup, lookup-insert, ◌==◌, nat_eq, list_eq, beq_eq, contains, ok, sort, sort-unique_set, arith,
  All, All-append, nat_order, list_order, Bool-cases, Option-cases, inl, inr, >>=-eq-ok, raise_if,
  insert_sorted, Order,
}
use native.Mathlib.Nat.{mod-lt}
use automated_reconciliation.Reconciliation.Validation.Consistent.{guard-eq-ok}
use automated_reconciliation.Common.Int.{ℤ, pos, negsuc, leb_ℤ, magnitude}
use automated_reconciliation.Scaling.Partitions.{
  WorkPartition, Buckets, keys_of, bucket_symbols, append_symbol, symbol_bucket, fill_buckets,
  partition_of, partitions_of, build_work_partitions, bad_bucket_count, normalized_symbols,
  normalized_providers,
}
use automated_reconciliation.Scaling.Partitions.Coverage.{build_work_partitions_inverts}

snoc_nonempty : (l : List Text) (s : Text) → (l ++ s ∷ []) ≢ []
snoc_nonempty [] s h = cc
snoc_nonempty (x ∷ l) s h = cc

module _ (digest : Text → ℕ) (count : ℤ) where
  -- A bucket with symbols, all of which belong there.
  abbrev pub IsBucket : ℕ → List Text → Type 0
  IsBucket b l = (b < magnitude count) × (l ≢ []) × All (λ s. symbol_bucket digest s count ≡ ok b) l

  positive : (a : ℤ) → leb_ℤ a (pos 0) ≡ false → 0 < magnitude a
  positive (pos n) h = ground arith
  positive (negsuc n) h = ground arith

  symbol_bucket_bound :
      (s : Text) (b : ℕ) → symbol_bucket digest s count ≡ ok b → b < magnitude count
  unfolding symbol_bucket
  symbol_bucket_bound s b h =
      let (_, checked, bucket) = >>=-eq-ok (raise_if (leb_ℤ count (pos 0)) bad_bucket_count) _ h in
      let some_ : 0 < magnitude count =
        positive count (guard-eq-ok (leb_ℤ count (pos 0)) bad_bucket_count checked) in
      let same : digest (normalize s) % magnitude count ≡ b = cc in
      rw (← same) (mod-lt (digest (normalize s)) some_)

  abbrev AllBuckets : Buckets → Type 0
  AllBuckets d = (b : ℕ) (l : List Text) → lookup b d ≡ some l → IsBucket b l

  old_symbols :
      (b : ℕ) (d : Buckets)
      → AllBuckets d
      → All (λ x. symbol_bucket digest x count ≡ ok b) (bucket_symbols d b)
  old_symbols b d k = elim (Option-cases (lookup b d)) [
    | inl new ↦ rw new tt
    | inr (l, old) ↦ rw old ((k b l old).2)
  ]

  append_symbol-AllBuckets :
      (s : Text) (b : ℕ) (d : Buckets)
      → symbol_bucket digest s count ≡ ok b
      → AllBuckets d
      → AllBuckets (append_symbol b s d)
  append_symbol-AllBuckets s b d h k c l found = elim (Bool-cases (c == b)) [
    | inl here ↦
        let same : bucket_symbols d b ++ s ∷ [] ≡ l =
          ground (arith, found, lookup-insert c b (bucket_symbols d b ++ s ∷ []) d) in
        rw (beq_eq c b here) (
          symbol_bucket_bound s b h,
          rw (← same) (snoc_nonempty (bucket_symbols d b) s),
          rw (← same) (
              All-append (λ x. symbol_bucket digest x count ≡ ok b) (bucket_symbols d b) (s ∷ [])
                (old_symbols b d k) (h, tt)),
        )
    | inr there ↦ k c l (ground (arith, lookup-insert c b (bucket_symbols d b ++ s ∷ []) d))
  ]

  fill_buckets-AllBuckets :
      (symbols : List Text) (d d' : Buckets)
      → fill_buckets digest count symbols d ≡ ok d'
      → AllBuckets d
      → AllBuckets d'
  unfolding fill_buckets
  fill_buckets-AllBuckets [] d d' h k = let same : d ≡ d' = cc in rw (← same) k
  fill_buckets-AllBuckets (s ∷ symbols) d d' h k =
      let (b, at, rest) = >>=-eq-ok (symbol_bucket digest s count) _ h in
      fill_buckets-AllBuckets symbols (append_symbol b s d) d' rest
        (append_symbol-AllBuckets s b d at k)

-- Every key has an entry.
module _ {ℓ} {A : Type ℓ} ⦃o : Order A⦄ where
  insert_sorted-All :
      (P : A → Type 0) (x : A) (l : List A) → P x → All P l → All P (insert_sorted x l)
  insert_sorted-All P x [] h k = (h, tt)
  insert_sorted-All P x (y ∷ l) h k = elim (Bool-cases (o.less x y)) [
    | inl here ↦ rw here (h, k)
    | inr there ↦ rw there (k.0, insert_sorted-All P x l h k.1)
  ]

  sort-All : (P : A → Type 0) (l : List A) → All P l → All P (sort l)
  sort-All P [] h = tt
  sort-All P (x ∷ l) h = insert_sorted-All P x (sort l) h.0 (sort-All P l h.1)

All-map :
    {A B : Type 0} (P : B → Type 0) (f : A → B) (l : List A) → ((x : A) → P (f x)) → All P (map f l)
All-map P f [] h = tt
All-map P f (x ∷ l) h = (h x, All-map P f l h)

-- The keys of a table have entries in it.
keys_of-lookup :
    {V : Type 0} (d full : Dict ℕ V)
    → ((k : ℕ) → lookup k d ≢ none → lookup k full ≢ none)
    → All (λ k. lookup k full ≢ none) (keys_of d)
keys_of-lookup [] full h = tt
keys_of-lookup ((j, v) ∷ d) full h = (
  h j (λ e. ground (arith, e)),
  keys_of-lookup d full (λ k there. h k (λ e. ground (arith, there, e))),
)

module _ (digest : Text → ℕ) (uuid5 : Text → Text) (isoformat : ℕ → Text) where
  -- What a partition is made of: one bucket, its symbols, which are there and all belong to it, and a provider.
  abbrev pub IsPartition : ℤ → WorkPartition → Type 0
  IsPartition count w =
      (w.symbol_bucket < magnitude count)
      × (w.symbols ≢ [])
      × All (λ s. symbol_bucket digest s count ≡ ok w.symbol_bucket) w.symbols

  partitions_of-IsPartition :
      (count : ℤ) (run_id : Text) (date : ℕ) (instrument : Text) (providers : List Text)
      (d : Buckets) (buckets : List ℕ)
      → AllBuckets digest count d
      → All (λ b. lookup b d ≢ none) buckets
      → All
          (IsPartition count)
          (partitions_of digest uuid5 isoformat run_id date instrument providers d buckets)
  partitions_of-IsPartition count run_id date instrument providers d [] h k = tt
  partitions_of-IsPartition count run_id date instrument providers d (b ∷ buckets) h k =
      All-append (IsPartition count)
        (map (partition_of digest uuid5 isoformat run_id date instrument b (bucket_symbols d b))
          providers)
        (partitions_of digest uuid5 isoformat run_id date instrument providers d buckets)
        (All-map (IsPartition count)
          (partition_of digest uuid5 isoformat run_id date instrument b (bucket_symbols d b))
          providers
          (λ p. elim (Option-cases (lookup b d)) [
            | inl new ↦ absurd (k.0 new)
            | inr (l, there) ↦ rw there (h b l there)
          ]))
        (partitions_of-IsPartition count run_id date instrument providers d buckets h k.1)

  -- Each partition that `build_work_partitions` makes has the number of a bucket below `bucket_count` and at least one
  -- symbol, and `symbol_bucket` puts all its symbols into that bucket.
  pub build_work_partitions-IsPartition :
      (run_id : Text) (date : ℕ) (instrument : Text) (symbols providers : List Text) (count : ℤ)
      (ws : List WorkPartition)
      → build_work_partitions digest uuid5 isoformat run_id date instrument symbols providers count
        ≡ ok ws
      → All (IsPartition count) ws
  build_work_partitions-IsPartition run_id date instrument symbols providers count ws h =
      let (d, filled, made) =
        build_work_partitions_inverts digest uuid5 isoformat run_id date instrument symbols
          providers count ws h in
      rw (← made) (
        partitions_of-IsPartition count run_id date (normalize instrument)
          (normalized_providers providers) d (sort (keys_of d))
          (fill_buckets-AllBuckets digest count (normalized_symbols symbols) [] d filled
            (λ b l e. cc))
          (sort-All (λ b. lookup b d ≢ none) (keys_of d) (keys_of-lookup d d (λ k there. there))))

  -- The partitions depend on the symbols only as a set: neither their order nor a repetition, nor case or surrounding
  -- white space makes a difference, to an error either.
  pub build_work_partitions_set :
      (run_id : Text) (date : ℕ) (instrument : Text) (symbols others providers : List Text)
      (count : ℤ)
      → ((s : Text) → contains s (map normalize symbols) ≡ contains s (map normalize others))
      → build_work_partitions digest uuid5 isoformat run_id date instrument symbols providers count
        ≡ build_work_partitions digest uuid5 isoformat run_id date instrument others providers count
  unfolding build_work_partitions
  build_work_partitions_set run_id date instrument symbols others providers count h =
      rw (sort-unique_set (map normalize symbols) (map normalize others) h) refl
