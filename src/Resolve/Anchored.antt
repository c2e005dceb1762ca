-- ===== src/Resolve/Anchored.antt =====
-- `anchored_components` of core/resolve.py finds the classes of the confirmed pairs and of the
-- confirmed anchors.
use mathlib.Core.List.{Memᴰ}
use iknos.Prelude.{
  ℕ, zero, ◌≡◌, ◌≢◌, ◌↔◌, ◌⊎◌, refl, sym, ap, ◌∙◌, ◌&&◌, ◌||◌, inl, inr, true, false, Bool, List,
  [], ◌∷◌, any, leb, length, distinct, contains, ◌==◌, Each, Bool-cases, arith,
}
use iknos.Resolve.{
  EntityId, Forest, Component, no_entities, unions, by_target, merge_targets, anchored_groups,
  targets_of, insert_component, sort_components, grouped, anchored_forest, anchored_components,
}
use iknos.Resolve.Roots.{Root, top, Root-unique}
use iknos.Resolve.Finds.{IsForest}
use iknos.Resolve.Groups.{members_at, Rooted, grouped-Grouped, several_members}
use iknos.Resolve.Targets.{anchored_to, Targeted, by_target-Targeted}
use iknos.Resolve.Merging.{
  merge_targets-IsForest, merge_targets_keep, merge_targets_known, merge_targets_join,
  merge_targets-Sound,
}
use iknos.Resolve.Sound.{
  SameRoot, unions-IsForest, unions_join, unions_known_ends, no_entities-IsForest, Sound,
  unions-Sound,
}

-- the least equivalence that the pairs assert, and that joins what has one anchor
pub data Identified (pairs anchors : List (EntityId × EntityId))
    : EntityId → EntityId → Type 0 where
  asserted : (x y : EntityId) → Memᴰ (x, y) pairs → Identified pairs anchors x y
  anchored :
      (x y t : EntityId)
      → anchored_to anchors x t ≡ true
      → anchored_to anchors y t ≡ true
      → Identified pairs anchors x y
  itself : (x : EntityId) → Identified pairs anchors x x
  back : (x y : EntityId) → Identified pairs anchors x y → Identified pairs anchors y x
  chained :
      (x y z : EntityId)
      → Identified pairs anchors x y
      → Identified pairs anchors y z
      → Identified pairs anchors x z

-- one of the components has both
abbrev pub identified : EntityId → EntityId → List Component → Bool
identified a b cs = any (λ (c : Component). contains c.members a && contains c.members b) cs

identified-insert_component :
    (a b : EntityId) (c : Component) (cs : List Component)
    → identified a b (insert_component c cs)
      ≡ ((contains c.members a && contains c.members b) || identified a b cs)
unfolding insert_component
identified-insert_component a b c [] = refl
identified-insert_component a b c (d ∷ cs) =
    let rest = identified-insert_component a b c cs in
    elim (Bool-cases (leb c.canonical d.canonical)) [
      | inl first ↦ rw (first, insert_component) refl
      | inr later ↦
          rw (later, insert_component)
            (ap (λ x. (contains d.members a && contains d.members b) || x) rest
              ∙ let p = contains c.members a && contains c.members b in
                let q = contains d.members a && contains d.members b in ground arith)
    ]

identified-sort_components :
    (a b : EntityId) (cs : List Component) → identified a b (sort_components cs) ≡ identified a b cs
unfolding sort_components
identified-sort_components a b [] = refl
identified-sort_components a b (c ∷ cs) =
    identified-insert_component a b c (sort_components cs)
    ∙ ap (λ x. (contains c.members a && contains c.members b) || x)
        (identified-sort_components a b cs)

identified-anchored_groups :
    (anchors : List (EntityId × EntityId)) (a b r : EntityId)
    (groups : List (EntityId × List EntityId))
    → a ≢ b
    → contains (members_at r groups) a ≡ true
    → contains (members_at r groups) b ≡ true
    → identified a b (anchored_groups anchors groups) ≡ true
unfolding anchored_groups contains
identified-anchored_groups anchors a b r [] apart m k = absurd cc
identified-anchored_groups anchors a b r ((key, members) ∷ groups) apart m k =
    let kept = leb (length members) 1 && length (distinct (targets_of anchors members)) == 0 in
    elim (Bool-cases (key == r)) [
      | inl at_r ↦
          let in_a : contains members a ≡ true = ground arith in
          let in_b : contains members b ≡ true = ground arith in
          let size = several_members a b members apart in_a in_b in
          let stays : kept ≡ false = ground arith in
          rw (stays, anchored_groups) (rw (in_a, in_b) refl)
      | inr other ↦
          let rest =
            identified-anchored_groups anchors a b r groups apart (ground arith) (ground arith) in
          elim (Bool-cases kept) [
            | inl dropped ↦ rw (dropped, anchored_groups) rest
            | inr stays ↦ rw (stays, anchored_groups, rest) (ground arith)
          ]
    ]

anchored_groups-Rooted :
    (parent : EntityId → EntityId) (anchors : List (EntityId × EntityId)) (a b : EntityId)
    (groups : List (EntityId × List EntityId))
    → Each (Rooted parent) groups
    → identified a b (anchored_groups anchors groups) ≡ true
    → (r : EntityId) × ((n : ℕ) × Root parent n a r) × ((m : ℕ) × Root parent m b r)
unfolding anchored_groups
anchored_groups-Rooted parent anchors a b [] each h = absurd cc
anchored_groups-Rooted parent anchors a b ((key, members) ∷ groups) each h =
    elim (Bool-cases (contains members a && contains members b)) [
      | inl both ↦ (key, each.0 a (ground arith), each.0 b (ground arith))
      | inr apart ↦
          anchored_groups-Rooted parent anchors a b groups each.1
            (elim (Bool-cases
              (leb (length members) 1 && length (distinct (targets_of anchors members)) == 0)) [
                | inl dropped ↦ rw (dropped, anchored_groups) at h
                | inr stays ↦ let k = rw (stays, anchored_groups, apart) at h in k
              ])
    ]

module _ (pairs anchors : List (EntityId × EntityId)) where
  abbrev C : EntityId → EntityId → Type 0
  C = Identified pairs anchors

  abbrev first : Forest
  first = unions pairs no_entities

  abbrev first-IsForest : IsForest first
  first-IsForest = unions-IsForest pairs no_entities no_entities-IsForest

  abbrev swept : Forest × List (EntityId × List EntityId)
  swept = by_target anchors first []

  gathered : Targeted anchors first [] swept.0 swept.1
  gathered = by_target-Targeted anchors first [] first-IsForest

  abbrev merged : Forest
  merged = merge_targets swept.1 swept.0

  merged-IsForest : IsForest merged
  merged-IsForest = merge_targets-IsForest swept.1 swept.0 gathered.forest

  merged-Sound : Sound C (λ x y c. back x y c) (λ x y z c d. chained x y z c d) merged
  merged-Sound =
      let start =
        unions-Sound C (λ x y c. back x y c) (λ x y z c d. chained x y z c d) pairs no_entities
          no_entities-IsForest (λ x y m. asserted x y m)
          (λ n z r there.
            let same : r ≡ z = (Root-unique no_entities.parent n zero z r z there (top z refl)).1 in
            rw same (itself z)) in
      merge_targets-Sound C (λ x y c. back x y c) (λ x y z c d. chained x y z c d) anchors
        (λ x y t h k. anchored x y t h k) swept.1 swept.0 gathered.forest
        (gathered.named anchors (λ a t h. h) tt)
        (λ n z r there.
          let (m, s, old) = first-IsForest.rooted z in
          let (k, now) = gathered.keeps m z s old in
          let same : s ≡ r = (Root-unique swept.0.parent k n z s r now there).1 in
          rw same at (start m z s old))

  at_target :
      (a t : EntityId) → anchored_to anchors a t ≡ true → contains (members_at t swept.1) a ≡ true
  unfolding contains
  at_target a t h = gathered.members a t ∙ ground arith

  Identified-SameRoot : (a b : EntityId) → Identified pairs anchors a b → SameRoot merged a b
  Identified-SameRoot a b (asserted _ _ m) =
      let (r, (n, at_a), (k, at_b)) = unions_join pairs no_entities no_entities-IsForest a b m in
      let (i, now_a) = gathered.keeps n a r at_a in
      let (j, now_b) = gathered.keeps k b r at_b in
      merge_targets_keep swept.1 swept.0 gathered.forest a b (r, (i, now_a), (j, now_b))
  Identified-SameRoot a b (anchored _ _ t h k) =
      merge_targets_join swept.1 swept.0 gathered.forest a b t (at_target a t h) (at_target b t k)
  Identified-SameRoot a b (itself _) =
      let (n, r, there) = merged-IsForest.rooted a in (r, (n, there), (n, there))
  Identified-SameRoot a b (back x y c) =
      let (r, at_x, at_y) = Identified-SameRoot x y c in (r, at_y, at_x)
  Identified-SameRoot a b (chained x y z c d) =
      let (r, at_x, (n, at_y)) = Identified-SameRoot x y c in
      let (s, (m, at_y2), (k, at_z)) = Identified-SameRoot y z d in
      let same : s ≡ r = (Root-unique merged.parent m n y s r at_y2 at_y).1 in
      (r, at_x, (k, rw same at at_z))

  abbrev Known : EntityId → Type 0
  Known a = contains merged.known a ≡ true

  Identified-Known : (a b : EntityId) → Identified pairs anchors a b → (a ≡ b) ⊎ (Known a × Known b)
  Identified-Known a b (asserted _ _ m) =
      let (is_a, is_b) = unions_known_ends pairs no_entities no_entities-IsForest a b m in
      inr (
        merge_targets_known swept.1 swept.0 gathered.forest a (gathered.known a is_a),
        merge_targets_known swept.1 swept.0 gathered.forest b (gathered.known b is_b),
      )
  Identified-Known a b (anchored _ _ t h k) = inr (
    merge_targets_known swept.1 swept.0 gathered.forest a (gathered.ends a t h),
    merge_targets_known swept.1 swept.0 gathered.forest b (gathered.ends b t k),
  )
  Identified-Known a b (itself _) = inl refl
  Identified-Known a b (back x y c) = elim (Identified-Known x y c) [
    | inl e ↦ inl (sym e)
    | inr both ↦ inr (both.1, both.0)
  ]
  Identified-Known a b (chained x y z c d) = elim (Identified-Known x y c) [
    | inl e ↦ rw e (Identified-Known y z d)
    | inr both ↦ elim (Identified-Known y z d) [
      | inl e ↦ inr (both.0, rw e at both.1)
      | inr rest ↦ inr (both.0, rest.1)
    ]
  ]

  -- Two different ids are in one anchored component exactly if a chain leads from the one to the other
  -- in which each step is a confirmed pair, in either direction, or two ids with one anchor.
  pub anchored_components-iff-Identified :
      (a b : EntityId)
      → a ≢ b
      → (identified a b (anchored_components pairs anchors) ≡ true) ↔ Identified pairs anchors a b
  unfolding anchored_components anchored_forest
  anchored_components-iff-Identified a b apart =
      let made =
        grouped-Grouped merged.parent merged-IsForest.rooted merged merged-IsForest
          (λ m z s there. (m, there)) merged.known [] in
      let groups = grouped merged.known merged [] in
      let unsorted = identified-sort_components a b (anchored_groups anchors groups) in
      (
        λ h.
            let (r, (n, at_a), (m, at_b)) =
              anchored_groups-Rooted merged.parent anchors a b groups (made.sound tt)
                (sym unsorted ∙ h) in
            chained a r b (merged-Sound n a r at_a) (back b r (merged-Sound m b r at_b)),
        λ c. elim (Identified-Known a b c) [
          | inl e ↦ absurd (apart e)
          | inr both ↦
              let (r, (n, at_a), (m, at_b)) = Identified-SameRoot a b c in
              unsorted
              ∙ identified-anchored_groups anchors a b r groups apart
                  (made.complete n a r at_a both.0) (made.complete m b r at_b both.1)
        ],
      )
