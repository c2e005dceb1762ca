-- ===== src/Prelude/Pigeonhole.antt =====
-- More numbers than a bound allows repeat.
use Prim.Native.Nat.{ℕ, zero, suc, ◌≤◌, ◌<◌}
use mathlib.Core.Path.{◌≡◌, refl}
use mathlib.Core.Logic.{◌≢◌, inl, inr}
use mathlib.Core.Bool.{Bool, true, false, not}
use mathlib.Core.List.{List, [], ◌∷◌}
use native.Mathlib.Omega.{arith}
use iknos.Prelude.Tests.{◌==◌, Bool-cases}
use iknos.Prelude.Lists.{length}
use iknos.Prelude.Sets.{contains, keep, contains-keep, Distinct}

abbrev other : ℕ → ℕ → Bool
other m x = not (m == x)

pub keep-Distinct : (p : ℕ → Bool) (xs : List ℕ) → Distinct xs → Distinct (keep p xs)
unfolding keep
keep-Distinct p [] d = tt
keep-Distinct p (x ∷ xs) d = ground (arith, keep-Distinct p xs d.1, contains-keep p xs x)

length-keep_absent :
    (m : ℕ) (xs : List ℕ) → contains xs m ≡ false → length xs ≤ length (keep (other m) xs)
unfolding keep contains
length-keep_absent m [] h = omega arith
length-keep_absent m (x ∷ xs) h = ground (arith, length-keep_absent m xs)

length-keep-other :
    (m : ℕ) (xs : List ℕ) → Distinct xs → length xs ≤ suc (length (keep (other m) xs))
unfolding keep contains
length-keep-other m [] d = omega arith
length-keep-other m (x ∷ xs) d = elim (Bool-cases (m == x)) [
  | inl same ↦
      let e : m ≡ x = ground arith in
      let gone : contains xs m ≡ false = rw e d.0 in ground (arith, length-keep_absent m xs gone)
  | inr differs ↦ ground (arith, length-keep-other m xs d.1)
]

pub length-Distinct_le :
    (bound : ℕ) (xs : List ℕ)
    → Distinct xs
    → ((x : ℕ) → contains xs x ≡ true → x < bound)
    → length xs ≤ bound
unfolding contains
length-Distinct_le zero [] d h = omega arith
length-Distinct_le zero (x ∷ xs) d h = absurd (let b = h x (ground arith) in omega arith)
length-Distinct_le (suc bound) xs d h =
    let fewer =
      length-Distinct_le bound (keep (other bound) xs) (keep-Distinct (other bound) xs d)
        (λ x m. ground (arith, h x, contains-keep (other bound) xs x)) in
    omega (arith, length-keep-other bound xs d)

-- the values of a function at the first `n` numbers
abbrev values : (ℕ → ℕ) → ℕ → List ℕ
values f zero = []
values f (suc n) = f n ∷ values f n

contains-values :
    (f : ℕ → ℕ) (n x : ℕ) → contains (values f n) x ≡ true → (i : ℕ) × (i < n) × (f i ≡ x)
unfolding contains
contains-values f zero x m = cc
contains-values f (suc n) x m = elim (Bool-cases (f n == x)) [
  | inl last ↦ (n, omega arith, ground arith)
  | inr other ↦ let (i, below, is) = contains-values f n x (ground arith) in (i, omega arith, is)
]

values-Distinct :
    (f : ℕ → ℕ) (n : ℕ) → ((a b : ℕ) → a < b → b < n → f a ≢ f b) → Distinct (values f n)
values-Distinct f zero h = tt
values-Distinct f (suc n) h = (
  elim (Bool-cases (contains (values f n) (f n))) [
    | inl twice ↦
        let (i, below, is) = contains-values f n (f n) twice in
        absurd (h i n below (omega arith) is)
    | inr once ↦ once
  ],
  values-Distinct f n (λ a b less below. h a b less (omega arith)),
)

length-values : (f : ℕ → ℕ) (n : ℕ) → length (values f n) ≡ n
length-values f zero = refl
length-values f (suc n) = omega (arith, length-values f n)

-- A function that is injective below `n` has a value that reaches each bound below `n`.
pub pigeonhole :
    (f : ℕ → ℕ) (n bound : ℕ)
    → ((a b : ℕ) → a < b → b < n → f a ≢ f b)
    → ((i : ℕ) → i < n → f i < bound)
    → n ≤ bound
pigeonhole f n bound apart below =
    let fits =
      length-Distinct_le bound (values f n) (values-Distinct f n apart)
        (λ x m. let (i, at, is) = contains-values f n x m in rw (← is) (below i at)) in
    omega (arith, length-values f n)

length-keep_least : (m : ℕ) (xs : List ℕ) → length (keep (other m) xs) ≤ length xs
unfolding keep
length-keep_least m [] = omega arith
length-keep_least m (x ∷ xs) = ground (arith, length-keep_least m xs)

length-keep_present :
    (m : ℕ) (xs : List ℕ) → contains xs m ≡ true → length (keep (other m) xs) < length xs
unfolding keep contains
length-keep_present m [] h = cc
length-keep_present m (x ∷ xs) h = elim (Bool-cases (m == x)) [
  | inl same ↦ ground (arith, length-keep_least m xs)
  | inr differs ↦ ground (arith, length-keep_present m xs)
]

-- A set is no larger than one that it is part of.
pub length-subset_le :
    (xs ys : List ℕ)
    → Distinct xs
    → ((x : ℕ) → contains xs x ≡ true → contains ys x ≡ true)
    → length xs ≤ length ys
unfolding contains
length-subset_le [] ys d h = omega arith
length-subset_le (x ∷ xs) ys d h =
    let fewer =
      length-subset_le xs (keep (other x) ys) d.1
        (λ y m. ground (arith, h y, contains-keep (other x) ys y)) in
    let less = length-keep_present x ys (h x (ground arith)) in omega arith
