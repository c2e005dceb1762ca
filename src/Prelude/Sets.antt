-- ===== src/Prelude/Sets.antt =====
-- Python's sets of ids as lists: membership is a test, and order and repetition do not matter.
use Prim.Native.Nat.{ℕ}
use mathlib.Core.Path.{◌≡◌, refl, ◌∙◌}
use mathlib.Core.Bool.{Bool, true, false, not, ◌&&◌, ◌||◌}
use mathlib.Core.List.{List, [], ◌∷◌, ◌++◌}
use native.Mathlib.Omega.{arith}
use iknos.Prelude.Tests.{leb, ◌==◌, if◌then◌else◌, Bool-cases}
use mathlib.Core.Logic.{inl, inr}

-- `a in xs`
unfoldable pub contains : List ℕ → ℕ → Bool
contains [] a = false
contains (x ∷ xs) a = x == a || contains xs a

-- the elements of `xs` that pass a test
unfoldable pub keep : (ℕ → Bool) → List ℕ → List ℕ
keep p [] = []
keep p (x ∷ xs) = let rest = keep p xs in if p x then x ∷ rest else rest

-- `xs - ys`
unfoldable pub minus : List ℕ → List ℕ → List ℕ
unfolding keep
minus xs ys = keep (λ x. not (contains ys x)) xs

-- `all(p(x) for x in xs)`
unfoldable pub all : (ℕ → Bool) → List ℕ → Bool
all p [] = true
all p (x ∷ xs) = p x && all p xs

-- one copy of each element, so that its length is Python's `len(set)`
unfoldable pub distinct : List ℕ → List ℕ
distinct [] = []
distinct (x ∷ xs) = let rest = distinct xs in if contains xs x then rest else x ∷ rest

unfoldable pub insert_sorted : ℕ → List ℕ → List ℕ
insert_sorted a [] = a ∷ []
insert_sorted a (x ∷ xs) = let rest = insert_sorted a xs in if leb a x then a ∷ x ∷ xs else x ∷ rest

unfoldable pub insertion_sort : List ℕ → List ℕ
insertion_sort [] = []
insertion_sort (x ∷ xs) = insert_sorted x (insertion_sort xs)

-- `sorted(xs)`, of a set: every element once
unfoldable pub sorted : List ℕ → List ℕ
unfolding insertion_sort distinct insert_sorted
sorted xs = insertion_sort (distinct xs)

-- No element stands twice.
abbrev pub Distinct : List ℕ → Type 0
Distinct [] = Unit
Distinct (x ∷ xs) = (contains xs x ≡ false) × Distinct xs

pub contains-append :
    (xs ys : List ℕ) (a : ℕ) → contains (xs ++ ys) a ≡ (contains xs a || contains ys a)
unfolding contains
contains-append [] ys a = refl
contains-append (x ∷ xs) ys a = ground (arith, contains-append xs ys a)

pub append-Distinct :
    (xs : List ℕ) (n : ℕ) → Distinct xs → contains xs n ≡ false → Distinct (xs ++ n ∷ [])
unfolding contains
append-Distinct [] n d h = (refl, tt)
append-Distinct (x ∷ xs) n d h =
    ground (arith, append-Distinct xs n d.1, contains-append xs (n ∷ []) x)

pub contains-keep :
    (p : ℕ → Bool) (xs : List ℕ) (a : ℕ) → contains (keep p xs) a ≡ (p a && contains xs a)
unfolding contains keep
contains-keep p [] a = ground arith
contains-keep p (x ∷ xs) a = ground (arith, contains-keep p xs a)

pub contains-minus :
    (xs ys : List ℕ) (a : ℕ) → contains (minus xs ys) a ≡ (not (contains ys a) && contains xs a)
unfolding minus
contains-minus xs ys a = contains-keep _ xs a

pub contains-distinct : (xs : List ℕ) (a : ℕ) → contains (distinct xs) a ≡ contains xs a
unfolding contains distinct
contains-distinct [] a = refl
contains-distinct (x ∷ xs) a = ground (arith, contains-distinct xs a)

pub contains-insert_sorted :
    (x : ℕ) (xs : List ℕ) (a : ℕ) → contains (insert_sorted x xs) a ≡ (x == a || contains xs a)
unfolding contains insert_sorted
contains-insert_sorted x [] a = refl
contains-insert_sorted x (y ∷ xs) a = ground (arith, contains-insert_sorted x xs a)

pub contains-insertion_sort : (xs : List ℕ) (a : ℕ) → contains (insertion_sort xs) a ≡ contains xs a
unfolding contains insertion_sort
contains-insertion_sort [] a = refl
contains-insertion_sort (x ∷ xs) a =
    ground (arith, contains-insert_sorted x (insertion_sort xs) a, contains-insertion_sort xs a)

pub contains-sorted : (xs : List ℕ) (a : ℕ) → contains (sorted xs) a ≡ contains xs a
unfolding sorted
contains-sorted xs a =
    ground (arith, contains-insertion_sort (distinct xs) a, contains-distinct xs a)

pub distinct-Distinct : (xs : List ℕ) → Distinct (distinct xs)
unfolding distinct
distinct-Distinct [] = tt
distinct-Distinct (x ∷ xs) = ground (arith, distinct-Distinct xs, contains-distinct xs x)

insert_sorted-Distinct :
    (x : ℕ) (xs : List ℕ) → contains xs x ≡ false → Distinct xs → Distinct (insert_sorted x xs)
unfolding insert_sorted contains
insert_sorted-Distinct x [] h d = (refl, tt)
insert_sorted-Distinct x (y ∷ xs) h d =
    ground (arith, insert_sorted-Distinct x xs, contains-insert_sorted x xs y)

insertion_sort-Distinct : (xs : List ℕ) → Distinct xs → Distinct (insertion_sort xs)
unfolding insertion_sort
insertion_sort-Distinct [] d = tt
insertion_sort-Distinct (x ∷ xs) d =
    insert_sorted-Distinct x (insertion_sort xs) (contains-insertion_sort xs x ∙ d.0)
      (insertion_sort-Distinct xs d.1)

pub sorted-Distinct : (xs : List ℕ) → Distinct (sorted xs)
unfolding sorted
sorted-Distinct xs = insertion_sort-Distinct (distinct xs) (distinct-Distinct xs)

pub all-contains :
    (p : ℕ → Bool) (xs : List ℕ) (a : ℕ) → all p xs ≡ true → contains xs a ≡ true → p a ≡ true
unfolding contains all
all-contains p [] a h m = cc
all-contains p (x ∷ xs) a h m = ground (arith, all-contains p xs a)

pub all_intro :
    (p : ℕ → Bool) (xs : List ℕ) → ((a : ℕ) → contains xs a ≡ true → p a ≡ true) → all p xs ≡ true
unfolding contains all
all_intro p [] h = refl
all_intro p (x ∷ xs) h = ground (arith, h x, all_intro p xs (λ a m. h a (ground arith)))

-- a test that does not hold throughout fails somewhere
pub all_witness :
    (p : ℕ → Bool) (xs : List ℕ)
    → all p xs ≡ false
    → (a : ℕ) × (contains xs a ≡ true) × (p a ≡ false)
unfolding contains all
all_witness p [] h = cc
all_witness p (x ∷ xs) h = elim (Bool-cases (p x)) [
  | inl holds ↦ let (a, m, f) = all_witness p xs (ground arith) in (a, ground arith, f)
  | inr fails ↦ (x, ground arith, fails)
]
