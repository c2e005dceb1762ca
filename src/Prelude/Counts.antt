-- ===== src/Prelude/Counts.antt =====
-- How many elements of a set fail a test: the counters of unmet antecedents.
use Prim.Native.Nat.{ℕ, suc, ◌+◌}
use mathlib.Core.Path.{◌≡◌, refl, ap}
use mathlib.Core.Bool.{Bool, true, false, ◌||◌}
use mathlib.Core.List.{List, [], ◌∷◌}
use native.Mathlib.Omega.{arith}
use iknos.Prelude.Tests.{◌==◌, if◌then◌else◌, one_if}
use iknos.Prelude.Lists.{length}
use iknos.Prelude.Sets.{contains, distinct, Distinct, distinct-Distinct, contains-distinct}

unfoldable pub lacking : (ℕ → Bool) → List ℕ → ℕ
lacking f [] = 0
lacking f (x ∷ xs) = if f x then lacking f xs else suc (lacking f xs)

-- `sum(1 for a in set(xs) if not f(a))`
unfoldable pub unmet_of : (ℕ → Bool) → List ℕ → ℕ
unfolding lacking distinct
unmet_of f xs = lacking f (distinct xs)

module _ (f g : ℕ → Bool) where
  lacking_cong :
      (xs : List ℕ) → ((a : ℕ) → contains xs a ≡ true → f a ≡ g a) → lacking f xs ≡ lacking g xs
  unfolding lacking contains
  lacking_cong [] h = refl
  lacking_cong (x ∷ xs) h = ground (arith, h x, lacking_cong xs (λ a m. h a (ground arith)))

  pub unmet_of_cong :
      (xs : List ℕ) → ((a : ℕ) → contains xs a ≡ true → f a ≡ g a) → unmet_of f xs ≡ unmet_of g xs
  unfolding unmet_of
  unmet_of_cong xs h =
      lacking_cong (distinct xs) (λ a m. h a (ground (arith, contains-distinct xs a)))

module _ (f : ℕ → Bool) where
  lacking_zero : (xs : List ℕ) (a : ℕ) → lacking f xs ≡ 0 → contains xs a ≡ true → f a ≡ true
  unfolding lacking contains
  lacking_zero [] a z m = cc
  lacking_zero (x ∷ xs) a z m = ground (arith, lacking_zero xs a)

  -- A counter at zero means that every element passes, and the other way round.
  pub unmet_of_zero : (xs : List ℕ) (a : ℕ) → unmet_of f xs ≡ 0 → contains xs a ≡ true → f a ≡ true
  unfolding unmet_of
  unmet_of_zero xs a z m = lacking_zero (distinct xs) a z (ground (arith, contains-distinct xs a))

  lacking_none : (xs : List ℕ) → ((a : ℕ) → contains xs a ≡ true → f a ≡ true) → lacking f xs ≡ 0
  unfolding lacking contains
  lacking_none [] h = refl
  lacking_none (x ∷ xs) h = ground (arith, h x, lacking_none xs (λ a m. h a (ground arith)))

  pub unmet_of_none :
      (xs : List ℕ) → ((a : ℕ) → contains xs a ≡ true → f a ≡ true) → unmet_of f xs ≡ 0
  unfolding unmet_of
  unmet_of_none xs h =
      lacking_none (distinct xs) (λ a m. h a (ground (arith, contains-distinct xs a)))

-- One more element that passes lowers the counter by one if it is in the set.
module _ (f : ℕ → Bool) (n : ℕ) (new : f n ≡ false) where
  abbrev pub with_one : ℕ → Bool
  with_one x = f x || n == x

  lacking_step :
      (xs : List ℕ) → Distinct xs → lacking f xs ≡ lacking with_one xs + one_if (contains xs n)
  unfolding lacking contains
  lacking_step [] d = omega arith
  lacking_step (x ∷ xs) d = ground (arith, lacking_step xs d.1)

  pub unmet_of_step : (xs : List ℕ) → unmet_of f xs ≡ unmet_of with_one xs + one_if (contains xs n)
  unfolding unmet_of
  unmet_of_step xs =
      ground (arith, lacking_step (distinct xs) (distinct-Distinct xs), contains-distinct xs n)

-- With nothing delivered the counter is Python's `len(set(xs))`.
lacking_all : (xs : List ℕ) → lacking (λ _. false) xs ≡ length xs
unfolding lacking
lacking_all [] = refl
lacking_all (x ∷ xs) = ap suc (lacking_all xs)

pub unmet_of_all : (xs : List ℕ) → unmet_of (λ _. false) xs ≡ length (distinct xs)
unfolding unmet_of
unmet_of_all xs = lacking_all (distinct xs)
