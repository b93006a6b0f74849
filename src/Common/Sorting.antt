-- ===== src/Common/Sorting.antt =====
-- `sorted`, `set` and `dict.fromkeys` on lists, over an interface for `<`, and how often a value stands in a list.
use Prim.Native.Nat.{ℕ, suc, ◌+◌}
use mathlib.Core.Path.{◌≡◌, refl, ap, ◌∙◌, sym}
use mathlib.Core.Logic.{◌≢◌}
use mathlib.Core.Bool.{Bool, true, false, not, ◌&&◌, ◌||◌}
use mathlib.Core.List.{List, [], ◌∷◌, ◌++◌}
use native.Mathlib.Omega.{arith}
use automated_reconciliation.Common.Tests.{if◌then◌else◌, ltb}
use automated_reconciliation.Common.Lists.{count_of, filter_of}
use automated_reconciliation.Common.Equality.{Eq, ◌==◌}
use automated_reconciliation.Common.Assoc.{contains, beq_refl}

pub record Order {ℓ} (A : Type ℓ) : Type ℓ where
  pub less : A → A → Bool
  pub less_irrefl : (x : A) → less x x ≡ false
  pub less_trans : (x y z : A) → less x y ≡ true → less y z ≡ true → less x z ≡ true
  pub less_connex : (x y : A) → less x y ≡ false → less y x ≡ false → x ≡ y

pub ltb_irrefl : (n : ℕ) → ltb n n ≡ false
ltb_irrefl n = ground arith

pub ltb_trans : (x y z : ℕ) → ltb x y ≡ true → ltb y z ≡ true → ltb x z ≡ true
ltb_trans x y z h k = ground arith

pub ltb_connex : (x y : ℕ) → ltb x y ≡ false → ltb y x ≡ false → x ≡ y
ltb_connex x y h k = ground arith

instance abbrev pub nat_order : Order ℕ
nat_order = record {
  less = ltb;
  less_irrefl = ltb_irrefl;
  less_trans = ltb_trans;
  less_connex = ltb_connex;
}

module _ {ℓ} {A : Type ℓ} ⦃o : Order A⦄ where
  -- Lexicographic, as `<` on `str`.
  abbrev pub list_less : List A → List A → Bool
  list_less l [] = false
  list_less [] (y ∷ r) = true
  list_less (x ∷ l) (y ∷ r) = o.less x y || not (o.less y x) && list_less l r

  pub list_less_irrefl : (l : List A) → list_less l l ≡ false
  list_less_irrefl [] = refl
  list_less_irrefl (x ∷ l) = ground (arith, o.less_irrefl x, list_less_irrefl l)

  pub list_less_trans :
      (l m r : List A) → list_less l m ≡ true → list_less m r ≡ true → list_less l r ≡ true
  list_less_trans l [] r h k = cc
  list_less_trans l (y ∷ m) [] h k = cc
  list_less_trans [] (y ∷ m) (z ∷ r) h k = refl
  list_less_trans (x ∷ l) (y ∷ m) (z ∷ r) h k = ground (
    arith,
    o.less_trans x y z,
    o.less_trans z x y,
    o.less_trans y z x,
    o.less_trans z y x,
    o.less_connex x y,
    o.less_connex y z,
    list_less_trans l m r,
  )

  pub list_less_connex : (l r : List A) → list_less l r ≡ false → list_less r l ≡ false → l ≡ r
  list_less_connex [] [] h k = refl
  list_less_connex [] (y ∷ r) h k = cc
  list_less_connex (x ∷ l) [] h k = cc
  list_less_connex (x ∷ l) (y ∷ r) h k = ground (arith, o.less_connex x y, list_less_connex l r)

  instance abbrev pub list_order : Order (List A)
  list_order = record {
    less = list_less;
    less_irrefl = list_less_irrefl;
    less_trans = list_less_trans;
    less_connex = list_less_connex;
  }

  -- Insertion behind all that is not greater.
  abbrev pub insert_sorted : A → List A → List A
  insert_sorted x [] = x ∷ []
  insert_sorted x (y ∷ ys) =
      let rest = insert_sorted x ys in if o.less x y then x ∷ y ∷ ys else y ∷ rest

  -- `sorted(xs)`
  abbrev pub sort : List A → List A
  sort [] = []
  sort (x ∷ xs) = insert_sorted x (sort xs)

  pub insert_sorted_comm :
      (x y : A) (l : List A)
      → insert_sorted x (insert_sorted y l) ≡ insert_sorted y (insert_sorted x l)
  insert_sorted_comm x y [] = ground (arith, o.less_connex x y, o.less_trans x y x, o.less_irrefl x)
  insert_sorted_comm x y (z ∷ l) = ground (
    arith,
    insert_sorted_comm x y l,
    o.less_connex x y,
    o.less_irrefl x,
    o.less_trans x y x,
    o.less_trans x y z,
    o.less_trans y x z,
    o.less_trans x z y,
    o.less_trans y z x,
    o.less_connex x z,
    o.less_connex y z,
  )

module _ {ℓ} {A : Type ℓ} ⦃e : Eq A⦄ where
  -- `list(dict.fromkeys(xs))`, which is also the elements of `set(xs)` in some order
  abbrev pub unique : List A → List A
  unique [] = []
  unique (x ∷ xs) = x ∷ filter_of (λ y. not (x == y)) (unique xs)

  abbrev pub occurrences : A → List A → ℕ
  occurrences x xs = count_of (λ y. x == y) xs

  pub count-filter_of :
      (p q : A → Bool) (xs : List A) → count_of p (filter_of q xs) ≡ count_of (λ y. q y && p y) xs
  count-filter_of p q [] = refl
  count-filter_of p q (x ∷ xs) = ground (arith, count-filter_of p q xs)

  pub occurrences-append :
      (x : A) (l r : List A) → occurrences x (l ++ r) ≡ occurrences x l + occurrences x r
  occurrences-append x [] r = omega arith
  occurrences-append x (y ∷ l) r = ground (arith, occurrences-append x l r)

  pub contains-append :
      (x : A) (l r : List A) → contains x (l ++ r) ≡ (contains x l || contains x r)
  contains-append x [] r = refl
  contains-append x (y ∷ l) r = ground (arith, contains-append x l r)

  -- No value stands twice.
  abbrev pub Unrepeated : List A → Type ℓ
  Unrepeated l = (x : A) → occurrences x l ≡ (if contains x l then 1 else 0)

  pub occurrences-remove :
      (x y : A) (xs : List A)
      → occurrences y (filter_of (λ z. not (x == z)) xs) ≡ (if x == y then 0 else occurrences y xs)
  occurrences-remove x y [] = ground arith
  occurrences-remove x y (z ∷ xs) =
      ground
        (arith, e.equals_iff x y, e.equals_iff y z, e.equals_iff x z, occurrences-remove x y xs)

  -- No value stands twice, and the same values stand as before.
  pub occurrences-unique :
      (x : A) (xs : List A) → occurrences x (unique xs) ≡ (if contains x xs then 1 else 0)
  occurrences-unique x [] = refl
  occurrences-unique x (y ∷ xs) = ground (
    arith,
    occurrences-remove y x (unique xs),
    occurrences-unique x xs,
    e.equals_iff x y,
    e.equals_iff y x,
  )

  pub contains-occurrences : (x : A) (l : List A) → occurrences x l ≢ 0 → contains x l ≡ true
  contains-occurrences x [] h = absurd (h refl)
  contains-occurrences x (y ∷ l) h = ground (arith, contains-occurrences x l)

  pub occurrences-contains : (x : A) (l : List A) → contains x l ≡ true → occurrences x l ≢ 0
  occurrences-contains x [] h = cc
  occurrences-contains x (y ∷ l) h = ground (arith, occurrences-contains x l)

  pub Unrepeated-snoc :
      (x : A) (l : List A) → Unrepeated l → contains x l ≡ false → Unrepeated (l ++ x ∷ [])
  Unrepeated-snoc x l h new y =
      ground (
        arith,
        occurrences-append y l (x ∷ []),
        contains-append y l (x ∷ []),
        h y,
        e.equals_iff y x,
      )

  -- What stands behind a value is not before it.
  pub Unrepeated-fresh : (x : A) (l r : List A) → Unrepeated (l ++ x ∷ r) → contains x l ≡ false
  Unrepeated-fresh x l r h =
      ground (arith, h x, occurrences-append x l (x ∷ r), beq_refl x, occurrences-contains x l)

module _ {ℓ} {A : Type ℓ} ⦃e : Eq A⦄ ⦃o : Order A⦄ where
  pub occurrences-insert_sorted :
      (x y : A) (l : List A) → occurrences x (insert_sorted y l) ≡ occurrences x (y ∷ l)
  occurrences-insert_sorted x y [] = refl
  occurrences-insert_sorted x y (z ∷ l) = ground (arith, occurrences-insert_sorted x y l)

  pub occurrences-sort : (x : A) (l : List A) → occurrences x (sort l) ≡ occurrences x l
  occurrences-sort x [] = refl
  occurrences-sort x (y ∷ l) =
      ground (arith, occurrences-insert_sorted x y (sort l), occurrences-sort x l)

  -- A list without the first element that equals a value.
  abbrev pub erase : A → List A → List A
  erase x [] = []
  erase x (y ∷ l) = let rest = erase x l in if x == y then l else y ∷ rest

  pub occurrences-erase :
      (x y : A) (l : List A)
      → contains x l ≡ true
      → occurrences y l
        ≡ (if y == x then suc (occurrences y (erase x l)) else occurrences y (erase x l))
  occurrences-erase x y [] h = cc
  occurrences-erase x y (z ∷ l) h = ground (
    arith,
    e.equals_iff x y,
    e.equals_iff y x,
    e.equals_iff y z,
    e.equals_iff x z,
    occurrences-erase x y l,
  )

  -- An element that stands in a list can be put in its place last.
  pub sort-erase :
      (x : A) (l : List A) → contains x l ≡ true → sort l ≡ insert_sorted x (sort (erase x l))
  sort-erase x [] h = cc
  sort-erase x (y ∷ l) h =
      ground (arith, e.equals_iff x y, insert_sorted_comm x y (sort (erase x l)), sort-erase x l)

  -- A sorted list forgets the order: it depends on how often each value stands there, and on nothing else.
  pub sort_same : (l r : List A) → ((x : A) → occurrences x l ≡ occurrences x r) → sort l ≡ sort r
  sort_same [] [] h = refl
  sort_same [] (y ∷ r) h = ground (arith, h y, beq_refl y)
  sort_same (x ∷ l) r h =
      let here : contains x r ≡ true = contains-occurrences x r (ground (arith, h x, beq_refl x)) in
      ap (insert_sorted x)
        (sort_same l (erase x r) (λ y. ground (arith, h y, occurrences-erase x y r here)))
      ∙ sym (sort-erase x r here)

  -- `sorted(set(xs))` depends on the set only.
  pub sort-unique_set :
      (l r : List A) → ((x : A) → contains x l ≡ contains x r) → sort (unique l) ≡ sort (unique r)
  sort-unique_set l r h =
      sort_same (unique l) (unique r)
        (λ x. ground (arith, occurrences-unique x l, occurrences-unique x r, h x))
