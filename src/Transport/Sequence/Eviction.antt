-- ===== src/Transport/Sequence/Eviction.antt =====
-- The eviction loop keeps the counts equal to the occurrences in the window, and never raises KeyError.
use automated_reconciliation.Common.{
  ℕ, zero, suc, ◌+◌, ◌≡◌, refl, Option, none, some, List, [], ◌∷◌, ◌++◌, ltb, length, Dict, lookup,
  insert, remove, lookup-insert, lookup-remove, nat_eq, arith, Bool-cases, inl, inr, ◌⊎◌,
}
use automated_reconciliation.Transport.Sequence.{decrement, evict, get_default}
use automated_reconciliation.Transport.Sequence.History.{tally, tally-append, keep_last}

abbrev pub nonzero : ℕ → Option ℕ
nonzero zero = none
nonzero (suc n) = some (suc n)

-- The dictionary holds how often each number occurs in the list, and no zero.
abbrev pub Tallies : List ℕ → Dict ℕ ℕ → Type 0
Tallies xs counts = (n : ℕ) → lookup n counts ≡ nonzero (tally n xs)

pub Tallies-append :
    (xs : List ℕ) (n : ℕ) (counts : Dict ℕ ℕ)
    → Tallies xs counts
    → Tallies (xs ++ n ∷ []) (insert n (get_default 0 (lookup n counts) + 1) counts)
unfolding tally
Tallies-append xs n counts h k = ground (
  arith,
  h k,
  h n,
  lookup-insert k n (get_default 0 (lookup n counts) + 1) counts,
  tally-append k xs (n ∷ []),
  tally-append n xs (n ∷ []),
)

Nat-cases : (n : ℕ) → (n ≡ 0) ⊎ ((m : ℕ) × (n ≡ suc m))
Nat-cases zero = inl refl
Nat-cases (suc m) = inr (m, refl)

decrement-Tallies :
    (x : ℕ) (xs : List ℕ) (counts : Dict ℕ ℕ)
    → Tallies (x ∷ xs) counts
    → (counts' : Dict ℕ ℕ) × (decrement x counts ≡ some counts') × Tallies xs counts'
unfolding tally
decrement-Tallies x xs counts h = elim (Nat-cases (tally x xs)) [
  | inl last ↦
      (remove x counts, ground (arith, h x), λ n. ground (arith, h n, lookup-remove n x counts))
  | inr (m, more) ↦ (
    insert x (suc m) counts,
    ground (arith, h x),
    λ n. ground (arith, h n, lookup-insert n x (suc m) counts),
  )
]

pub evict-Tallies :
    (w : ℕ) (xs : List ℕ) (counts : Dict ℕ ℕ)
    → Tallies xs counts
    → (counts' : Dict ℕ ℕ) × (evict w xs counts ≡ some (keep_last w xs, counts'))
      × Tallies (keep_last w xs) counts'
unfolding evict keep_last
evict-Tallies w [] counts h = (counts, refl, h)
evict-Tallies w (x ∷ xs) counts h = elim (Bool-cases (ltb w (length (x ∷ xs)))) [
  | inl over ↦
      let (smaller, step, fits) = decrement-Tallies x xs counts h in
      let (final, rest, done) = evict-Tallies w xs smaller fits in
      (final, ground arith, ground (arith))
  | inr within ↦ (counts, ground arith, ground arith)
]
