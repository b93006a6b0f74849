-- ===== src/Scaling/Partitions/Tests.antt =====
-- Partitions of concrete symbols, and the theorems about them at an input.
use automated_reconciliation.Common.{
  ℕ, ◌+◌, ◌≡◌, refl, List, [], ◌∷◌, map, Text, text, contains, normalize, decimal, padded, All,
  Result, err, nat_eq, list_eq, digits, arith, strip, to_upper, lstrip, rstrip,
}
use automated_reconciliation.Common.Int.{ℤ, pos, negsuc}
use automated_reconciliation.Reconciliation.Tests.{value_or}
use automated_reconciliation.Scaling.Partitions.{
  WorkPartition, PartitionError, bad_bucket_count, no_symbols, symbol_bucket, fill_buckets,
  build_work_partitions,
}
use automated_reconciliation.Scaling.Partitions.Coverage.{assigned, assigned-build_work_partitions}
use automated_reconciliation.Scaling.Partitions.Bounds.{
  IsPartition, build_work_partitions-IsPartition, build_work_partitions_set,
}

-- The sum of the characters, in place of SHA-256.
abbrev sum_digest : Text → ℕ
sum_digest [] = 0
sum_digest (c ∷ s) = c + sum_digest s

-- The name itself, in place of uuid5.
abbrev same_text : Text → Text
same_text s = s

abbrev symbols : List Text
symbols = text " spy" ∷ text "AAPL" ∷ text "Spy " ∷ text "MSFT" ∷ []

abbrev others : List Text
others = text "msft" ∷ text "AAPL" ∷ text "SPY" ∷ []

abbrev providers : List Text
providers = text "yahoo" ∷ text "ALPACA" ∷ []

abbrev build : List Text → ℤ → Result PartitionError (List WorkPartition)
build symbols count =
    build_work_partitions sum_digest same_text decimal (text "run") 7 (text "equity") symbols
      providers count

abbrev built : List WorkPartition
built = value_or [] (build symbols (pos 2))

padding : padded 5 37 ≡ text "00037"
unfolding digits
padding = refl

no_buckets : build symbols (pos 0) ≡ err bad_bucket_count
unfolding build_work_partitions fill_buckets symbol_bucket normalize strip lstrip rstrip to_upper
no_buckets = refl

nothing_asked : build [] (negsuc 0) ≡ err no_symbols
unfolding build_work_partitions
nothing_asked = refl

assigned-build_work_partitions_example : assigned (text "SPY") (text "YAHOO") built ≡ 1
unfolding build_work_partitions fill_buckets symbol_bucket normalize strip lstrip rstrip to_upper
assigned-build_work_partitions_example =
    assigned-build_work_partitions sum_digest same_text decimal (text "run") 7 (text "equity")
      symbols providers (pos 2) built refl (text "SPY") (text "YAHOO")

build_work_partitions-IsPartition_example :
    All (IsPartition sum_digest same_text decimal (pos 2)) built
unfolding build_work_partitions fill_buckets symbol_bucket normalize strip lstrip rstrip to_upper
build_work_partitions-IsPartition_example =
    build_work_partitions-IsPartition sum_digest same_text decimal (text "run") 7 (text "equity")
      symbols providers (pos 2) built refl

same_symbols : (s : Text) → contains s (map normalize symbols) ≡ contains s (map normalize others)
unfolding normalize strip lstrip rstrip to_upper
same_symbols s = ground arith

build_work_partitions_set_example : build symbols (pos 2) ≡ build others (pos 2)
build_work_partitions_set_example =
    build_work_partitions_set sum_digest same_text decimal (text "run") 7 (text "equity") symbols
      others providers (pos 2) same_symbols
