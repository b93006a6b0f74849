-- ===== src/Batch/Symbols.antt =====
-- The configuration of reconciliation_engine/batch.py: the symbols of a run, its identifier, and the integers that the environment
-- gives. What `uuid5` makes of a name, `date.isoformat` and `int` of a text are parameters.
pub mod Normal
mod Tests
use automated_reconciliation.Common.{
  ℕ, Bool, true, false, not, ◌&&◌, ◌||◌, leb, Option, none, some, List, [], ◌∷◌, ◌++◌, map,
  if◌then◌else◌, Text, text, is_empty, normalize, length, contains, any_of, decimal, ◌==◌, nat_eq,
  list_eq, Result, ok, err, ◌>>=◌, ◌>>◌, raise_if, sort, nat_order, list_order,
}
use automated_reconciliation.Common.Int.{ℤ, pos, leb_ℤ, magnitude}

-- The ValueErrors.
pub data ConfigurationError : Type 0 where
  invalid_symbol no_symbols not_an_integer out_of_range : ConfigurationError

abbrev pub begin_word : ℕ → List Text → List Text
begin_word c [] = (c ∷ []) ∷ []
begin_word c (word ∷ words) = (c ∷ word) ∷ words

-- `value.split(",")`
abbrev pub split_commas : Text → List Text
split_commas [] = [] ∷ []
split_commas (c ∷ s) = let rest = split_commas s in if c == 44 then [] ∷ rest else begin_word c rest

abbrev pub is_letter : ℕ → Bool
is_letter c = leb 65 c && leb c 90

abbrev pub is_symbol_character : ℕ → Bool
is_symbol_character c = is_letter c || (leb 48 c && leb c 57) || c == 46 || c == 45

-- `SYMBOL_PATTERN.fullmatch`
unfoldable pub is_symbol : Text → Bool
is_symbol [] = false
is_symbol (c ∷ s) =
    is_letter c && leb (length s) 14 && not (any_of (λ d. not (is_symbol_character d)) s)

abbrev pub append_new : Text → List Text → List Text
append_new symbol symbols = if contains symbol symbols then symbols else symbols ++ symbol ∷ []

-- The inner loop of `normalize_symbols`, over the candidates of one value.
unfoldable pub add_candidates : List Text → List Text → Result ConfigurationError (List Text)
add_candidates [] symbols = ok symbols
add_candidates (candidate ∷ candidates) symbols = elim (is_empty (normalize candidate)) [
  | true ↦ add_candidates candidates symbols
  | false ↦ elim (is_symbol (normalize candidate)) [
    | false ↦ err invalid_symbol
    | true ↦ add_candidates candidates (append_new (normalize candidate) symbols)
  ]
]

-- The outer loop.
unfoldable pub add_values : List Text → List Text → Result ConfigurationError (List Text)
add_values [] symbols = ok symbols
add_values (value ∷ values) symbols =
    add_candidates (split_commas value) symbols >>= λ more. add_values values more

abbrev pub some_symbols : List Text → Result ConfigurationError (List Text)
some_symbols [] = err no_symbols
some_symbols (symbol ∷ symbols) = ok (symbol ∷ symbols)

-- `normalize_symbols`
unfoldable pub normalize_symbols : List Text → Result ConfigurationError (List Text)
normalize_symbols values = add_values values [] >>= some_symbols

abbrev pub from_environment : Option Text → Result ConfigurationError (List Text)
from_environment none = ok (text "AAPL" ∷ [])
from_environment (some value) = normalize_symbols (value ∷ [])

-- `get_reconciliation_symbols`
abbrev pub get_reconciliation_symbols :
    Option (List Text) → Option Text → Result ConfigurationError (List Text)
get_reconciliation_symbols (some configured) environment = normalize_symbols configured
get_reconciliation_symbols none environment = from_environment environment

-- `",".join(symbols)`
abbrev pub join_commas : List Text → Text
join_commas [] = []
join_commas (symbol ∷ []) = symbol
join_commas (symbol ∷ next ∷ rest) = symbol ++ text "," ++ join_commas (next ∷ rest)

module _ (uuid5 : Text → Text) (isoformat : ℕ → Text) where
  -- `build_run_id`, for a number of buckets that is not negative
  unfoldable pub build_run_id : List Text → ℕ → ℕ → Result ConfigurationError Text
  build_run_id symbols control_date bucket_count = normalize_symbols symbols >>= λ selected. ok (
      uuid5 (
        text "equity-daily-v5-partitioned|buckets="
        ++ decimal bucket_count
        ++ text "|"
        ++ isoformat control_date
        ++ text "|"
        ++ join_commas (sort selected)))

module _ (parse_integer : Text → Option ℤ) where
  abbrev pub in_range : Option ℤ → ℕ → Result ConfigurationError ℕ
  in_range none maximum = err not_an_integer
  in_range (some value) maximum =
      raise_if (not (leb_ℤ (pos 1) value && leb_ℤ value (pos maximum))) out_of_range
      >> ok (magnitude value)

  -- `os.getenv(name, default)`
  abbrev pub text_or : Text → Option Text → Text
  text_or default none = default
  text_or default (some raw) = raw

  -- `_positive_environment_integer`
  unfoldable pub positive_environment_integer : Option Text → ℕ → ℕ → Result ConfigurationError ℕ
  positive_environment_integer raw default maximum =
      in_range (parse_integer (text_or (decimal default) raw)) maximum

  -- `get_scaling_configuration`
  unfoldable pub get_scaling_configuration :
      Option Text → Option Text → Result ConfigurationError (ℕ × ℕ)
  get_scaling_configuration raw_buckets raw_workers =
      positive_environment_integer raw_buckets 64 4096 >>= λ buckets.
      positive_environment_integer raw_workers 8 64 >>= λ workers. ok (buckets, workers)
