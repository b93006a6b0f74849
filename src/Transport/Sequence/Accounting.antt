-- ===== src/Transport/Sequence/Accounting.antt =====
-- The missing counts of one stream add up: they are the numbers below the greatest that no advancing
-- observation stands for.
use automated_reconciliation.Common.{
  ℕ, ◌+◌, ◌≡◌, refl, some, List, [], ◌∷◌, ◌++◌, map, Text, normalize, ok, arith, All, beq_refl,
  nat_eq, pair_eq, list_eq,
}
use mathlib.Core.List.{append_assoc, append-nil}
use automated_reconciliation.Transport.Sequence.{
  Key, SequenceTracker, SequenceObservation, SequenceStatus, first, in_order, gap, duplicate,
  reordered, new_tracker,
}
use automated_reconciliation.Transport.Sequence.History.{
  expected, greatest, greatest-append, above, le-greatest, contains-keep_last,
}
use automated_reconciliation.Transport.Sequence.Runs.{
  Event, Log, IsNamed, IsNamedEvent, stream_of, stream_of-append, observe_all, expected_all,
  observe_all-eq-expected_all,
}

abbrev pub missing_total : List SequenceObservation → ℕ
missing_total [] = 0
missing_total (o ∷ os) = o.missing_count + missing_total os

abbrev pub advance : SequenceStatus → ℕ
advance first = 1
advance in_order = 1
advance gap = 1
advance duplicate = 0
advance reordered = 0

-- How many observations raised the highest number: FIRST, IN_ORDER and GAP.
abbrev pub advances : List SequenceObservation → ℕ
advances [] = 0
advances (o ∷ os) = advance o.status + advances os

-- The observations of one stream, by its history alone.
expected_stream : ℕ → List ℕ → List ℕ → List SequenceObservation
expected_stream w history [] = []
expected_stream w history (n ∷ ns) = expected w history n ∷ expected_stream w (history ++ n ∷ []) ns

abbrev pub in_stream : Text → Text → List ℕ → List Event
in_stream source stream_id = map (λ n. (source, stream_id, n))

expected_all-in_stream :
    (w : ℕ) (source stream_id : Text) (log : Log) (ns : List ℕ)
    → expected_all w log (in_stream source stream_id ns)
      ≡ expected_stream w (stream_of (normalize source, normalize stream_id) log) ns
unfolding expected_all expected_stream
expected_all-in_stream w source stream_id log [] = refl
expected_all-in_stream w source stream_id log (n ∷ ns) =
    let key : Key = (normalize source, normalize stream_id) in
    rw (
      expected_all-in_stream w source stream_id (log ++ (key, n) ∷ []) ns,
      stream_of-append key key n log,
      beq_refl key,
    )

-- One observation accounts for the step of the greatest number.
expected_accounts :
    (w n m : ℕ) (history : List ℕ)
    → greatest history ≡ some m
    → let o = expected w history n in o.missing_count + advance o.status + m ≡ above n (some m)
unfolding expected
expected_accounts w n m history e =
    ground (arith, e, contains-keep_last w n history, le-greatest n m history)

expected_stream_accounts :
    (w m m' : ℕ) (history ns : List ℕ)
    → greatest history ≡ some m
    → greatest (history ++ ns) ≡ some m'
    → let os = expected_stream w history ns in missing_total os + advances os + m ≡ m'
unfolding expected_stream
expected_stream_accounts w m m' history [] e e' = ground (arith, e, append-nil history, e')
expected_stream_accounts w m m' history (n ∷ ns) e e' =
    let rest =
      expected_stream_accounts w (above n (some m)) m' (history ++ n ∷ []) ns
        (ground (arith, e, greatest-append history n)) (rw append_assoc e') in
    omega (arith, expected_accounts w n m history e, rest)

All-in_stream :
    (source stream_id : Text) (ns : List ℕ)
    → IsNamed source
    → IsNamed stream_id
    → All IsNamedEvent (in_stream source stream_id ns)
All-in_stream source stream_id [] p q = tt
All-in_stream source stream_id (n ∷ ns) p q = ((p, q), All-in_stream source stream_id ns p q)

-- When a new tracker has observed the numbers f, ns of one named stream and `m` is the greatest of them, the
-- reported missing counts and the advancing observations together number the integers from f to m.
pub missing_total-accounts :
    (w f m : ℕ) (ns : List ℕ) (source stream_id : Text) (tracker : SequenceTracker)
    → new_tracker w ≡ some tracker
    → IsNamed source
    → IsNamed stream_id
    → greatest (f ∷ ns) ≡ some m
    → (os : List SequenceObservation) × (tracker' : SequenceTracker) × (observe_all tracker
          (in_stream source stream_id (f ∷ ns))
        ≡ ok (os, tracker'))
      × (missing_total os + advances os + f ≡ m + 1)
unfolding expected_stream expected greatest stream_of
missing_total-accounts w f m ns source stream_id tracker e p q top =
    let (tracker', run) =
      observe_all-eq-expected_all w tracker (in_stream source stream_id (f ∷ ns)) e
        (All-in_stream source stream_id (f ∷ ns) p q) in
    (
      expected_stream w [] (f ∷ ns),
      tracker',
      rw (← expected_all-in_stream w source stream_id [] (f ∷ ns)) run,
      omega (arith, expected_stream_accounts w f m (f ∷ []) ns (ground arith) top),
    )
