-- ===== src/Transport/Framing/Prefixes.antt =====
-- Two ways to cut the same bytes: into what has arrived and what is to come, and at a marker.
use automated_reconciliation.Common.{
  ℕ, suc, ◌≡◌, ◌≢◌, ◌⊎◌, inl, inr, refl, none, some, List, [], ◌∷◌, ◌++◌, length, drop, nat_eq,
  arith, All, ◌≤◌, ◌<◌, Bool-cases, Option-cases, ◌==◌,
}
use automated_reconciliation.Transport.Framing.{Received, chunk, find}

-- The chunks that a peer sends, none of them empty.
abbrev pub Chunks : Type 0
Chunks = List (ℕ × List ℕ)

abbrev pub wire_of : Chunks → List Received
wire_of [] = []
wire_of ((b, bs) ∷ cs) = chunk (b ∷ bs) ∷ wire_of cs

abbrev pub bytes_of : Chunks → List ℕ
bytes_of [] = []
bytes_of ((b, bs) ∷ cs) = (b ∷ bs) ++ bytes_of cs

-- The marker has arrived, or what has arrived ends before it.
pub cut_cases :
    (x : ℕ) (b s frame rest : List ℕ)
    → b ++ s ≡ frame ++ x ∷ rest
    → ((b' : List ℕ) × (b ≡ frame ++ x ∷ b') × (b' ++ s ≡ rest))
      ⊎ ((more : List ℕ) × (frame ≡ b ++ more) × (s ≡ more ++ x ∷ rest))
cut_cases x [] s frame rest e = inr (frame, refl, e)
cut_cases x (y ∷ b) s [] rest e = inl (b, cc, cc)
cut_cases x (y ∷ b) s (z ∷ frame) rest e = elim (cut_cases x b s frame rest cc) [
  | inl (b', p, q) ↦ inl (b', cc, q)
  | inr (more, p, q) ↦ inr (more, cc, q)
]

abbrev pub Without : ℕ → List ℕ → Type 0
Without x = All (λ b. b ≢ x)

pub find-append :
    (x : ℕ) (frame rest : List ℕ)
    → Without x frame
    → find x (frame ++ x ∷ rest) ≡ some (length frame)
unfolding find
find-append x [] rest h = ground arith
find-append x (b ∷ frame) rest h = ground (arith, find-append x frame rest h.1)

pub find-none : (x : ℕ) (bs : List ℕ) → Without x bs → find x bs ≡ none
unfolding find
find-none x [] h = refl
find-none x (b ∷ bs) h = ground (arith, find-none x bs h.1)

pub Without-left : (x : ℕ) (bs cs : List ℕ) → Without x (bs ++ cs) → Without x bs
Without-left x [] cs h = tt
Without-left x (b ∷ bs) cs h = (h.0, Without-left x bs cs h.1)

pub drop-suc-length-append :
    (bs rest : List ℕ) (x : ℕ) → drop (suc (length bs)) (bs ++ x ∷ rest) ≡ rest
drop-suc-length-append [] rest x = refl
drop-suc-length-append (b ∷ bs) rest x = drop-suc-length-append bs rest x

pub find-bound : (x : ℕ) (bs : List ℕ) (d : ℕ) → find x bs ≡ some d → d < length bs
unfolding find
find-bound x [] d h = cc
find-bound x (b ∷ bs) d h = elim (Bool-cases (x == b)) [
  | inl here ↦ ground (arith, here, h)
  | inr there ↦ elim (Option-cases (find x bs)) [
    | inl missing ↦ ground (arith, there, missing, h)
    | inr (i, found) ↦ ground (arith, there, found, h, find-bound x bs i found)
  ]
]

pub find-some-append :
    (x : ℕ) (bs more : List ℕ) (d : ℕ) → find x bs ≡ some d → find x (bs ++ more) ≡ some d
unfolding find
find-some-append x [] more d h = cc
find-some-append x (b ∷ bs) more d h = elim (Bool-cases (x == b)) [
  | inl here ↦ ground (arith, here, h)
  | inr there ↦ elim (Option-cases (find x bs)) [
    | inl missing ↦ ground (arith, there, missing, h)
    | inr (i, found) ↦ ground (arith, there, found, h, find-some-append x bs more i found)
  ]
]

pub find-Without :
    (x : ℕ) (head rest : List ℕ) (d : ℕ)
    → Without x head
    → find x (head ++ rest) ≡ some d
    → length head ≤ d
unfolding find
find-Without x [] rest d h e = omega arith
find-Without x (b ∷ head) rest d h e = elim (Option-cases (find x (head ++ rest))) [
  | inl missing ↦ ground (arith, missing, h.0, e)
  | inr (i, found) ↦ ground (arith, found, h.0, e, find-Without x head rest i h.1 found)
]
