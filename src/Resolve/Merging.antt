-- ===== src/Resolve/Merging.antt =====
-- What the unions of each group of entities with one anchor join in core/resolve.py.
use mathlib.Core.List.{Memᴰ}
use iknos.Prelude.{
  ℕ, ◌≡◌, sym, ap, inl, inr, true, List, [], ◌∷◌, contains, ◌==◌, ==_refl, Each, Bool-cases, arith,
}
use iknos.Resolve.{EntityId, Forest, unions, merge_targets, star_of}
use iknos.Resolve.Roots.{Root, Root-unique}
use iknos.Resolve.Finds.{IsForest}
use iknos.Resolve.Groups.{members_at}
use iknos.Resolve.Sound.{
  SameRoot, unions-IsForest, unions_keep, unions_join, unions_known, Sound, unions-Sound,
}
use iknos.Resolve.Targets.{anchored_to, Named}

starred :
    (e a : EntityId) (others : List EntityId)
    → contains others a ≡ true
    → Memᴰ {A = EntityId × EntityId} (e, a) (star_of e others)
unfolding contains
starred e a [] m = absurd cc
starred e a (o ∷ others) m = elim (Bool-cases (o == a)) [
  | inl here ↦ let same : a ≡ o = ground arith in Memᴰ.head (ap (λ x. (e, x)) same)
  | inr later ↦ Memᴰ.tail (starred e a others (ground arith))
]

starred_inv :
    (e x y : EntityId) (others : List EntityId)
    → Memᴰ {A = EntityId × EntityId} (x, y) (star_of e others)
    → (x ≡ e) × (contains others y ≡ true)
unfolding contains
starred_inv e x y [] m = elim m [ ]
starred_inv e x y (o ∷ others) (Memᴰ.head h) =
    let at_o : y ≡ o = ap (λ (p : EntityId × EntityId). p.1) h in
    (ap (λ (p : EntityId × EntityId). p.0) h, ground arith)
starred_inv e x y (o ∷ others) (Memᴰ.tail m) =
    let (at_e, listed) = starred_inv e x y others m in (at_e, ground arith)

pub merge_targets-IsForest :
    (groups : List (EntityId × List EntityId)) (f : Forest)
    → IsForest f
    → IsForest (merge_targets groups f)
unfolding merge_targets
merge_targets-IsForest [] f forest = forest
merge_targets-IsForest ((key, []) ∷ groups) f forest = merge_targets-IsForest groups f forest
merge_targets-IsForest ((key, e ∷ others) ∷ groups) f forest =
    merge_targets-IsForest groups _ (unions-IsForest (star_of e others) f forest)

pub merge_targets_keep :
    (groups : List (EntityId × List EntityId)) (f : Forest)
    → IsForest f
    → (a b : EntityId) → SameRoot f a b
    → SameRoot (merge_targets groups f) a b
unfolding merge_targets
merge_targets_keep [] f forest a b same = same
merge_targets_keep ((key, []) ∷ groups) f forest a b same =
    merge_targets_keep groups f forest a b same
merge_targets_keep ((key, e ∷ others) ∷ groups) f forest a b same =
    let star = star_of e others in
    merge_targets_keep groups (unions star f) (unions-IsForest star f forest) a b
      (unions_keep star f forest a b same)

pub merge_targets_known :
    (groups : List (EntityId × List EntityId)) (f : Forest)
    → IsForest f
    → (a : EntityId) → contains f.known a ≡ true
    → contains (merge_targets groups f).known a ≡ true
unfolding merge_targets
merge_targets_known [] f forest a m = m
merge_targets_known ((key, []) ∷ groups) f forest a m = merge_targets_known groups f forest a m
merge_targets_known ((key, e ∷ others) ∷ groups) f forest a m =
    let star = star_of e others in
    merge_targets_known groups (unions star f) (unions-IsForest star f forest) a
      (unions_known star f forest a m)

Root-at : (p : EntityId → EntityId) (n : ℕ) (a b r : EntityId) → a ≡ b → Root p n a r → Root p n b r
Root-at p n a b r same there = rw same at there

SameRoot-equal : (f : Forest) → IsForest f → (a b : EntityId) → a ≡ b → SameRoot f a b
SameRoot-equal f forest a b same =
    let (n, r, there) = forest.rooted a in (r, (n, there), (n, Root-at f.parent n a b r same there))

-- the first of a group, and any other of it
first_joins :
    (e : EntityId) (others : List EntityId) (f : Forest)
    → IsForest f
    → (a : EntityId) → contains (e ∷ others) a ≡ true
    → SameRoot (unions (star_of e others) f) e a
unfolding contains
first_joins e others f forest a m =
    let star = star_of e others in
    elim (Bool-cases (e == a)) [
      | inl here ↦
          let same : e ≡ a = ground arith in
          SameRoot-equal (unions star f) (unions-IsForest star f forest) e a same
      | inr later ↦ unions_join star f forest e a (starred e a others (ground arith))
    ]

SameRoot-trans : (f : Forest) (a b c : EntityId) → SameRoot f a b → SameRoot f a c → SameRoot f b c
SameRoot-trans f a b c (r, (n, at_a), (m, at_b)) (s, (k, at_a2), (j, at_c)) =
    let same : s ≡ r = (Root-unique f.parent k n a s r at_a2 at_a).1 in
    (r, (m, at_b), (j, rw same at at_c))

pub merge_targets_join :
    (groups : List (EntityId × List EntityId)) (f : Forest)
    → IsForest f
    → (a b t : EntityId) → contains (members_at t groups) a ≡ true
    → contains (members_at t groups) b ≡ true
    → SameRoot (merge_targets groups f) a b
unfolding merge_targets contains
merge_targets_join [] f forest a b t m k = absurd cc
merge_targets_join ((key, []) ∷ groups) f forest a b t m k = elim (Bool-cases (key == t)) [
  | inl at_t ↦ absurd ground arith
  | inr other ↦ merge_targets_join groups f forest a b t (ground arith) (ground arith)
]
merge_targets_join ((key, e ∷ others) ∷ groups) f forest a b t m k =
    let star = star_of e others in
    let next = unions-IsForest star f forest in
    elim (Bool-cases (key == t)) [
      | inl at_t ↦ merge_targets_keep groups (unions star f) next a b (
          SameRoot-trans (unions star f) e a b (first_joins e others f forest a (ground arith))
            (first_joins e others f forest b (ground arith)))
      | inr other ↦
          merge_targets_join groups (unions star f) next a b t (ground arith) (ground arith)
    ]

pub merge_targets-Sound :
    (C : EntityId → EntityId → Type 0) (back : (x y : EntityId) → C x y → C y x)
    (chained : (x y z : EntityId) → C x y → C y z → C x z) (anchors : List (EntityId × EntityId))
    (anchored : (x y t : EntityId)
      → anchored_to anchors x t ≡ true
      → anchored_to anchors y t ≡ true
      → C x y)
    (groups : List (EntityId × List EntityId)) (f : Forest)
    → IsForest f
    → Each (Named anchors) groups
    → Sound C back chained f
    → Sound C back chained (merge_targets groups f)
unfolding merge_targets contains
merge_targets-Sound C back chained anchors anchored [] f forest each sound = sound
merge_targets-Sound C back chained anchors anchored ((key, []) ∷ groups) f forest each sound =
    merge_targets-Sound C back chained anchors anchored groups f forest each.1 sound
merge_targets-Sound C back chained anchors anchored ((key, e ∷ others) ∷ groups) f forest each
      sound =
    let star = star_of e others in
    merge_targets-Sound C back chained anchors anchored groups (unions star f)
      (unions-IsForest star f forest) each.1
      (unions-Sound C back chained star f forest
        (λ x y m.
          let (at_e, listed) = starred_inv e x y others m in
          anchored x y key
            (each.0 x (let h = ==_refl e in let q : e ≡ x = sym at_e in ground arith))
            (each.0 y (ground arith)))
        sound)
