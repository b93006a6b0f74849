-- ===== src/Transport/Sequence/History.antt =====
-- What a sequence tracker should know of one stream, in terms of the stream's whole history: the sequence
-- numbers that were observed, oldest first. Nothing here mentions the tracker's dictionaries.
use automated_reconciliation.Common.{
  ℕ, suc, ◌+◌, ◌-◌, ◌≤◌, ◌≡◌, refl, true, Option, none, some, List, [], ◌∷◌, ◌++◌, ltb,
  if◌then◌else◌, length, length-append, contains, ◌==◌, nat_eq, max, arith,
}
use automated_reconciliation.Transport.Sequence.{
  SequenceObservation, first, in_order, gap, duplicate, reordered,
}

abbrev pub above : ℕ → Option ℕ → ℕ
above n none = n
above n (some m) = max n m

-- The greatest number observed.
unfoldable pub greatest : List ℕ → Option ℕ
greatest [] = none
greatest (n ∷ ns) = some (above n (greatest ns))

-- The last `window` elements.
unfoldable pub keep_last : ℕ → List ℕ → List ℕ
keep_last window [] = []
keep_last window (n ∷ ns) =
    let rest = keep_last window ns in if ltb window (length (n ∷ ns)) then rest else n ∷ ns

-- How a number should be classified after a history: a number among the last `window` is a duplicate; any
-- other is judged against the greatest number seen.
unfoldable pub expected : ℕ → List ℕ → ℕ → SequenceObservation
unfolding greatest keep_last
expected window history n = elim (greatest history) [
  | none ↦ record { status = first; expected_sequence = none; missing_count = 0 }
  | some m ↦
      if contains n (keep_last window history)
      then record { status = duplicate; expected_sequence = some (m + 1); missing_count = 0 }
      else if n == m + 1
      then record { status = in_order; expected_sequence = some (m + 1); missing_count = 0 }
      else if ltb m n
      then record { status = gap; expected_sequence = some (m + 1); missing_count = n - (m + 1) }
      else record { status = reordered; expected_sequence = some (m + 1); missing_count = 0 }
]

-- How often a number occurs.
unfoldable pub tally : ℕ → List ℕ → ℕ
tally n [] = 0
tally n (m ∷ ms) = if n == m then suc (tally n ms) else tally n ms

pub tally-append : (n : ℕ) (xs ys : List ℕ) → tally n (xs ++ ys) ≡ tally n xs + tally n ys
unfolding tally
tally-append n [] ys = omega arith
tally-append n (x ∷ xs) ys = ground (arith, tally-append n xs ys)

pub contains-eq-tally : (n : ℕ) (xs : List ℕ) → contains n xs ≡ ltb 0 (tally n xs)
unfolding tally
contains-eq-tally n [] = refl
contains-eq-tally n (x ∷ xs) = ground (arith, contains-eq-tally n xs)

pub length-keep_last : (w : ℕ) (xs : List ℕ) → length (keep_last w xs) ≤ w
unfolding keep_last
length-keep_last w [] = omega arith
length-keep_last w (x ∷ xs) = ground (arith, length-keep_last w xs)

-- Dropping old elements early makes no difference.
pub keep_last-append :
    (w : ℕ) (xs : List ℕ) (n : ℕ)
    → keep_last w (keep_last w xs ++ n ∷ []) ≡ keep_last w (xs ++ n ∷ [])
unfolding keep_last
keep_last-append w [] n = refl
keep_last-append w (x ∷ xs) n = ground (arith, keep_last-append w xs n, length-append xs (n ∷ []))

pub greatest-append : (xs : List ℕ) (n : ℕ) → greatest (xs ++ n ∷ []) ≡ some (above n (greatest xs))
unfolding greatest
greatest-append [] n = refl
greatest-append (x ∷ xs) n = ground (arith, greatest-append xs n)

-- A number that occurs is at most the greatest.
pub le-greatest : (n m : ℕ) (xs : List ℕ) → contains n xs ≡ true → greatest xs ≡ some m → n ≤ m
unfolding greatest
le-greatest n m [] h e = cc
le-greatest n m (x ∷ []) h e = ground arith
le-greatest n m (x ∷ y ∷ ys) h e = ground (arith, le-greatest n (above y (greatest ys)) (y ∷ ys))

pub contains-keep_last :
    (w n : ℕ) (xs : List ℕ) → contains n (keep_last w xs) ≡ true → contains n xs ≡ true
unfolding keep_last
contains-keep_last w n [] h = h
contains-keep_last w n (x ∷ xs) h = ground (arith, contains-keep_last w n xs)
