-- ===== src/Scaling/Partitions.antt =====
-- reconciliation_engine/scaling/partitions.py: the work of an ingestion, split by the bucket of a symbol and by provider. The
-- first eight bytes of SHA-256 as a number, `uuid5` in the URL namespace and `date.isoformat` are parameters; a date is
-- the number of its day.
pub mod Coverage
pub mod Bounds
mod Tests
use automated_reconciliation.Common.{
  ℕ, ◌+◌, ◌%◌, Bool, true, false, Option, none, some, List, [], ◌∷◌, ◌++◌, map, if◌then◌else◌, Text,
  text, normalize, padded, Dict, lookup, insert, nat_eq, list_eq, Result, ok, err, ◌>>=◌, ◌>>◌,
  raise_if, unique, sort, nat_order, list_order,
}
use automated_reconciliation.Common.Int.{ℤ, pos, leb_ℤ, magnitude}

pub record WorkPartition : Type 0 where
  pub partition_id : Text
  pub run_id : Text
  pub control_date : ℕ
  pub instrument_type : Text
  pub symbol_bucket : ℕ
  pub provider : Text
  pub symbols : List Text

-- The three ValueErrors.
pub data PartitionError : Type 0 where
  bad_bucket_count no_symbols no_providers : PartitionError

abbrev pub is_nil {ℓ} : {A : Type ℓ} → List A → Bool
is_nil [] = true
is_nil (x ∷ xs) = false

abbrev pub keys_of {ℓ κ} : {K : Type ℓ} {V : Type κ} → Dict K V → List K
keys_of [] = []
keys_of ((k, v) ∷ d) = k ∷ keys_of d

abbrev pub Buckets : Type 0
Buckets = Dict ℕ (List Text)

abbrev pub list_or : Option (List Text) → List Text
list_or none = []
list_or (some l) = l

-- `buckets[bucket]`, of a bucket that is there
abbrev pub bucket_symbols : Buckets → ℕ → List Text
bucket_symbols buckets bucket = list_or (lookup bucket buckets)

-- `buckets.setdefault(bucket, []).append(symbol)`
abbrev pub append_symbol : ℕ → Text → Buckets → Buckets
append_symbol bucket symbol buckets =
    insert bucket (bucket_symbols buckets bucket ++ symbol ∷ []) buckets

abbrev pub normalized_symbols : List Text → List Text
normalized_symbols symbols = sort (unique (map normalize symbols))

abbrev pub normalized_providers : List Text → List Text
normalized_providers providers = unique (map normalize providers)

module _ (digest : Text → ℕ) where
  -- `symbol_bucket`
  unfoldable pub symbol_bucket : Text → ℤ → Result PartitionError ℕ
  symbol_bucket symbol count = do
    raise_if (leb_ℤ count (pos 0)) bad_bucket_count
    ok (digest (normalize symbol) % magnitude count)

  -- The loop that fills the buckets.
  unfoldable pub fill_buckets : ℤ → List Text → Buckets → Result PartitionError Buckets
  fill_buckets count [] buckets = ok buckets
  fill_buckets count (symbol ∷ symbols) buckets = do
    bucket ← symbol_bucket symbol count
    fill_buckets count symbols (append_symbol bucket symbol buckets)

  module _ (uuid5 : Text → Text) (isoformat : ℕ → Text) where
    abbrev pub logical_key : Text → ℕ → Text → ℕ → Text → Text
    logical_key run_id control_date instrument bucket provider =
        run_id
        ++ text "|"
        ++ isoformat control_date
        ++ text "|"
        ++ instrument
        ++ text "|"
        ++ padded 5 bucket
        ++ text "|"
        ++ provider

    abbrev pub partition_of : Text → ℕ → Text → ℕ → List Text → Text → WorkPartition
    partition_of run_id control_date instrument bucket symbols provider = record {
      partition_id = uuid5 (logical_key run_id control_date instrument bucket provider);
      run_id = run_id;
      control_date = control_date;
      instrument_type = instrument;
      symbol_bucket = bucket;
      provider = provider;
      symbols = symbols;
    }

    -- The two loops over the buckets and the providers.
    abbrev pub partitions_of : Text → ℕ → Text → List Text → Buckets → List ℕ → List WorkPartition
    partitions_of run_id control_date instrument providers buckets [] = []
    partitions_of run_id control_date instrument providers buckets (bucket ∷ rest) =
        map (partition_of run_id control_date instrument bucket (bucket_symbols buckets bucket))
          providers
        ++ partitions_of run_id control_date instrument providers buckets rest

    -- `build_work_partitions`
    unfoldable pub build_work_partitions :
        Text → ℕ → Text → List Text → List Text → ℤ → Result PartitionError (List WorkPartition)
    build_work_partitions run_id control_date instrument_type symbols providers bucket_count = do
      raise_if (is_nil (normalized_symbols symbols)) no_symbols
      raise_if (is_nil (normalized_providers providers)) no_providers
      buckets ← fill_buckets bucket_count (normalized_symbols symbols) []
      ok (
          partitions_of run_id control_date (normalize instrument_type)
            (normalized_providers providers) buckets (sort (keys_of buckets)))
