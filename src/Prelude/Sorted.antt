-- ===== src/Prelude/Sorted.antt =====
-- A set has one sorted list.
use Prim.Native.Nat.{ℕ, ◌<◌}
use mathlib.Core.Path.{◌≡◌, refl, sym, ap, ◌∙◌}
use mathlib.Core.Logic.{inl, inr}
use mathlib.Core.Bool.{true, false}
use mathlib.Core.List.{List, [], ◌∷◌}
use native.Mathlib.Omega.{arith}
use iknos.Prelude.Tests.{leb, Bool-cases}
use iknos.Prelude.Sets.{
  contains, distinct, insert_sorted, insertion_sort, sorted, Distinct, contains-insert_sorted,
  contains-insertion_sort, contains-sorted, distinct-Distinct,
}

-- each element is below all that follow it
abbrev IsAscending : List ℕ → Type 0
IsAscending [] = Unit
IsAscending (x ∷ xs) = ((y : ℕ) → contains xs y ≡ true → x < y) × IsAscending xs

insert_sorted-IsAscending :
    (x : ℕ) (xs : List ℕ)
    → contains xs x ≡ false
    → IsAscending xs
    → IsAscending (insert_sorted x xs)
unfolding insert_sorted contains
insert_sorted-IsAscending x [] new up = (λ y m. cc, tt)
insert_sorted-IsAscending x (y ∷ ys) new up = elim (Bool-cases (leb x y)) [
  | inl first ↦ rw first ((λ z m. ground (arith, up.0 z)), up)
  | inr later ↦ rw later (
    (λ z m. ground (arith, contains-insert_sorted x ys z, up.0 z)),
    insert_sorted-IsAscending x ys (ground arith) up.1,
  )
]

insertion_sort-IsAscending : (xs : List ℕ) → Distinct xs → IsAscending (insertion_sort xs)
unfolding insertion_sort
insertion_sort-IsAscending [] d = tt
insertion_sort-IsAscending (x ∷ xs) d =
    insert_sorted-IsAscending x (insertion_sort xs) (contains-insertion_sort xs x ∙ d.0)
      (insertion_sort-IsAscending xs d.1)

IsAscending-unique :
    (xs ys : List ℕ)
    → IsAscending xs
    → IsAscending ys
    → ((a : ℕ) → contains xs a ≡ contains ys a)
    → xs ≡ ys
unfolding contains
IsAscending-unique [] [] p q same = refl
IsAscending-unique [] (y ∷ ys) p q same = absurd (let s = same y in ground arith)
IsAscending-unique (x ∷ xs) [] p q same = absurd (let s = same x in ground arith)
IsAscending-unique (x ∷ xs) (y ∷ ys) p q same =
    let e : x ≡ y = ground (arith, same x, same y, p.0 y, q.0 x) in
    let rest : xs ≡ ys =
      IsAscending-unique xs ys p.1 q.1 λ a. ground (arith, same a, p.0 a, q.0 a, e) in
    ap (λ z. z ∷ xs) e ∙ ap (λ zs. y ∷ zs) rest

pub sorted_cong :
    (xs ys : List ℕ) → ((a : ℕ) → contains xs a ≡ contains ys a) → sorted xs ≡ sorted ys
unfolding sorted
sorted_cong xs ys same =
    IsAscending-unique (sorted xs) (sorted ys)
      (insertion_sort-IsAscending (distinct xs) (distinct-Distinct xs))
      (insertion_sort-IsAscending (distinct ys) (distinct-Distinct ys))
      (λ a. contains-sorted xs a ∙ same a ∙ sym (contains-sorted ys a))
