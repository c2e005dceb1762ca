-- ===== src/Resolve/Entities.antt =====
-- `components` of core/resolve.py finds the classes of the confirmed pairs.
use mathlib.Core.List.{Memᴰ}
use iknos.Prelude.{zero, ◌≡◌, ◌≢◌, ◌↔◌, ◌⊎◌, refl, sym, inl, inr, true, List, [], contains}
use iknos.Resolve.{EntityId, Forest, no_entities, unions, grouped, components}
use iknos.Resolve.Roots.{top, Root-unique}
use iknos.Resolve.Finds.{IsForest}
use iknos.Resolve.Sound.{
  SameRoot, unions-IsForest, unions_join, unions_known_ends, no_entities-IsForest, unions-Sound,
}
use iknos.Resolve.Groups.{together, together-several, several-Rooted, grouped-Grouped}

-- the least equivalence that the pairs assert
pub data Connected (pairs : List (EntityId × EntityId)) : EntityId → EntityId → Type 0 where
  asserted : (x y : EntityId) → Memᴰ (x, y) pairs → Connected pairs x y
  itself : (x : EntityId) → Connected pairs x x
  back : (x y : EntityId) → Connected pairs x y → Connected pairs y x
  chained : (x y z : EntityId) → Connected pairs x y → Connected pairs y z → Connected pairs x z

module _ (pairs : List (EntityId × EntityId)) where
  abbrev merged : Forest
  merged = unions pairs no_entities

  abbrev forest : IsForest merged
  forest = unions-IsForest pairs no_entities no_entities-IsForest

  Connected-SameRoot : (a b : EntityId) → Connected pairs a b → SameRoot merged a b
  Connected-SameRoot a b (asserted _ _ m) = unions_join pairs no_entities no_entities-IsForest a b m
  Connected-SameRoot a b (itself _) =
      let (n, r, there) = forest.rooted a in (r, (n, there), (n, there))
  Connected-SameRoot a b (back x y c) =
      let (r, at_x, at_y) = Connected-SameRoot x y c in (r, at_y, at_x)
  Connected-SameRoot a b (chained x y z c d) =
      let (r, at_x, (n, at_y)) = Connected-SameRoot x y c in
      let (s, (m, at_y2), (k, at_z)) = Connected-SameRoot y z d in
      let same : s ≡ r = (Root-unique merged.parent m n y s r at_y2 at_y).1 in
      (r, at_x, (k, rw same at at_z))

  Connected-known :
      (a b : EntityId)
      → Connected pairs a b
      → (a ≡ b) ⊎ ((contains merged.known a ≡ true) × (contains merged.known b ≡ true))
  Connected-known a b (asserted _ _ m) =
      inr (unions_known_ends pairs no_entities no_entities-IsForest a b m)
  Connected-known a b (itself _) = inl refl
  Connected-known a b (back x y c) = elim (Connected-known x y c) [
    | inl e ↦ inl (sym e)
    | inr both ↦ inr (both.1, both.0)
  ]
  Connected-known a b (chained x y z c d) = elim (Connected-known x y c) [
    | inl e ↦ rw e (Connected-known y z d)
    | inr both ↦ elim (Connected-known y z d) [
      | inl e ↦ inr (both.0, rw e at both.1)
      | inr rest ↦ inr (both.0, rest.1)
    ]
  ]

  -- Two different ids are in one component exactly if a chain of confirmed pairs, each read in either
  -- direction, leads from the one to the other.
  pub components-iff-Connected :
      (a b : EntityId) → a ≢ b → (together a b (components pairs) ≡ true) ↔ Connected pairs a b
  unfolding components
  components-iff-Connected a b apart =
      let made =
        grouped-Grouped merged.parent forest.rooted merged forest (λ m z s there. (m, there))
          merged.known [] in
      let sound =
        unions-Sound (Connected pairs) (λ x y c. back x y c) (λ x y z c d. chained x y z c d) pairs
          no_entities no_entities-IsForest (λ x y m. asserted x y m)
          (λ n z r there.
            let same : r ≡ z = (Root-unique no_entities.parent n zero z r z there (top z refl)).1 in
            rw same (itself z)) in
      (
        λ h.
            let (r, (n, at_a), (m, at_b)) =
              several-Rooted merged.parent a b (grouped merged.known merged []) (made.sound tt) h in
            chained a r b (sound n a r at_a) (back b r (sound m b r at_b)),
        λ c. elim (Connected-known a b c) [
          | inl e ↦ absurd (apart e)
          | inr both ↦
              let (r, (n, at_a), (m, at_b)) = Connected-SameRoot a b c in
              together-several a b r (grouped merged.known merged []) apart
                (made.complete n a r at_a both.0) (made.complete m b r at_b both.1)
        ],
      )
