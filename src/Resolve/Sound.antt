-- ===== src/Resolve/Sound.antt =====
-- What the unions of core/resolve.py join, and that they join nothing else.
use mathlib.Core.List.{Memᴰ}
use iknos.Prelude.{
  ℕ, zero, ◌≡◌, refl, sym, ap, ◌∙◌, inl, inr, true, List, [], ◌∷◌, contains, ◌==◌, ==_refl,
  Bool-cases, arith,
}
use iknos.Resolve.{EntityId, Forest, no_entities, union, unions}
use iknos.Resolve.Roots.{Root, top, Root-unique}
use iknos.Resolve.Finds.{IsForest}
use iknos.Resolve.Unions.{redirect, union-United}

abbrev pub SameRoot : Forest → EntityId → EntityId → Type 0
SameRoot f a b = (r : EntityId) × ((n : ℕ) × Root f.parent n a r) × ((m : ℕ) × Root f.parent m b r)

pub union_keeps :
    (x y : EntityId) (f : Forest)
    → IsForest f
    → (a b : EntityId) → SameRoot f a b
    → SameRoot (union x y f) a b
union_keeps x y f forest a b (r, (n, at_a), (m, at_b)) =
    let u = union-United x y f forest in
    (redirect u.root_x u.root_y r, u.moves n a r at_a, u.moves m b r at_b)

redirect_onto : (x y : EntityId) → redirect x y y ≡ y
redirect_onto x y = elim (Bool-cases (x == y)) [
  | inl same ↦ ground arith
  | inr other ↦ ground arith
]

pub union_joins : (x y : EntityId) (f : Forest) → IsForest f → SameRoot (union x y f) x y
union_joins x y f forest =
    let u = union-United x y f forest in
    let (n, at_x) = u.is_root_x in
    let (m, at_y) = u.is_root_y in
    let (i, now_x) = u.moves n x u.root_x at_x in
    let (j, now_y) = u.moves m y u.root_y at_y in
    let here : redirect u.root_x u.root_y u.root_x ≡ u.root_y =
      let k = ==_refl u.root_x in ground arith in
    (u.root_y, (i, rw here at now_x), (j, rw (redirect_onto u.root_x u.root_y) at now_y))

pub unions-IsForest :
    (pairs : List (EntityId × EntityId)) (f : Forest) → IsForest f → IsForest (unions pairs f)
unfolding unions
unions-IsForest [] f forest = forest
unions-IsForest ((x, y) ∷ pairs) f forest =
    unions-IsForest pairs (union x y f) (union-United x y f forest).forest

pub unions_keep :
    (pairs : List (EntityId × EntityId)) (f : Forest)
    → IsForest f
    → (a b : EntityId) → SameRoot f a b
    → SameRoot (unions pairs f) a b
unfolding unions
unions_keep [] f forest a b same = same
unions_keep ((x, y) ∷ pairs) f forest a b same =
    unions_keep pairs (union x y f) (union-United x y f forest).forest a b
      (union_keeps x y f forest a b same)

-- both ends of each pair are keys, with one root
pub unions_join :
    (pairs : List (EntityId × EntityId)) (f : Forest)
    → IsForest f
    → (a b : EntityId) → Memᴰ (a, b) pairs
    → SameRoot (unions pairs f) a b
unfolding unions
unions_join [] f forest a b m = elim m [ ]
unions_join ((x, y) ∷ pairs) f forest a b (Memᴰ.head e) =
    let at_a : a ≡ x = ap (λ (p : EntityId × EntityId). p.0) e in
    let at_b : b ≡ y = ap (λ (p : EntityId × EntityId). p.1) e in
    rw (at_a, at_b)
      (unions_keep pairs (union x y f) (union-United x y f forest).forest x y
        (union_joins x y f forest))
unions_join ((x, y) ∷ pairs) f forest a b (Memᴰ.tail m) =
    unions_join pairs (union x y f) (union-United x y f forest).forest a b m

pub unions_known :
    (pairs : List (EntityId × EntityId)) (f : Forest)
    → IsForest f
    → (a : EntityId) → contains f.known a ≡ true
    → contains (unions pairs f).known a ≡ true
unfolding unions
unions_known [] f forest a m = m
unions_known ((x, y) ∷ pairs) f forest a m =
    let u = union-United x y f forest in
    unions_known pairs (union x y f) u.forest a (u.known a ∙ ground arith)

pub unions_known_ends :
    (pairs : List (EntityId × EntityId)) (f : Forest)
    → IsForest f
    → (a b : EntityId) → Memᴰ (a, b) pairs
    → (contains (unions pairs f).known a ≡ true) × (contains (unions pairs f).known b ≡ true)
unfolding unions
unions_known_ends [] f forest a b m = elim m [ ]
unions_known_ends ((x, y) ∷ pairs) f forest a b (Memᴰ.head e) =
    let u = union-United x y f forest in
    let at_a : x ≡ a = sym (ap (λ (p : EntityId × EntityId). p.0) e) in
    let at_b : y ≡ b = sym (ap (λ (p : EntityId × EntityId). p.1) e) in
    (
      unions_known pairs (union x y f) u.forest a (u.known a ∙ ground arith),
      unions_known pairs (union x y f) u.forest b (u.known b ∙ ground arith),
    )
unions_known_ends ((x, y) ∷ pairs) f forest a b (Memᴰ.tail m) =
    unions_known_ends pairs (union x y f) (union-United x y f forest).forest a b m

pub no_entities-IsForest : IsForest no_entities
unfolding contains
no_entities-IsForest = record {
  below = λ y moves. absurd (moves refl);
  within = λ y m. absurd cc;
  rooted = λ y. (zero, y, top y refl);
}

-- a relation that joins each pair of a forest's unions joins each id to its root
module _ (C : EntityId → EntityId → Type 0) (back : (x y : EntityId) → C x y → C y x)
    (chained : (x y z : EntityId) → C x y → C y z → C x z) where
  abbrev pub Sound : Forest → Type 0
  Sound f = (n : ℕ) (z r : EntityId) → Root f.parent n z r → C z r

  pub unions-Sound :
      (pairs : List (EntityId × EntityId)) (f : Forest)
      → IsForest f
      → ((x y : EntityId) → Memᴰ (x, y) pairs → C x y)
      → Sound f
      → Sound (unions pairs f)
  unfolding unions
  unions-Sound [] f forest among sound = sound
  unions-Sound ((x, y) ∷ pairs) f forest among sound =
      let u = union-United x y f forest in
      unions-Sound pairs (union x y f) u.forest (λ a b m. among a b (Memᴰ.tail m))
        (λ n z r there.
          let (m, s, old) = forest.rooted z in
          let (k, now) = u.moves m z s old in
          let same : redirect u.root_x u.root_y s ≡ r =
            (Root-unique (union x y f).parent k n z (redirect u.root_x u.root_y s) r now there).1 in
          let to_s = sound m z s old in
          elim (Bool-cases (u.root_x == s)) [
            | inr other ↦ let e : s ≡ r = ground arith in rw e at to_s
            | inl moved ↦
                let e : u.root_y ≡ r = ground arith in
                let at_s : u.root_x ≡ s = ground arith in
                let (i, at_x) = u.is_root_x in
                let (j, at_y) = u.is_root_y in
                let from_s : C s x = rw at_s at (back x u.root_x (sound i x u.root_x at_x)) in
                let to_r : C y r = rw e at (sound j y u.root_y at_y) in
                chained z s r to_s
                  (chained s x r from_s (chained x y r (among x y (Memᴰ.head refl)) to_r))
          ])
