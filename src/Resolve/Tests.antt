-- ===== src/Resolve/Tests.antt =====
-- Confirmed pairs and the entities they make.
use iknos.Prelude.{◌≡◌, ◌↔◌, refl, true, List, [], ◌∷◌, contains, distinct, arith}
use iknos.Resolve.{
  EntityId, assign, root_of, compress, find_root, union, unions, add_member, grouped, several,
  components, anchored_components, anchored_forest, sort_components, insert_component,
  anchored_groups, targets_of, canonical_id, merge_targets, by_target, append_to,
}
use iknos.Resolve.Anchored.{Identified, identified, anchored_components-iff-Identified}
use iknos.Resolve.Groups.{together}
use iknos.Resolve.Entities.{Connected, components-iff-Connected}

abbrev confirmed : List (EntityId × EntityId)
confirmed = (1, 2) ∷ (3, 4) ∷ (5, 4) ∷ (6, 6) ∷ (2, 7) ∷ []

components_two : components confirmed ≡ (7 ∷ 1 ∷ 2 ∷ []) ∷ (5 ∷ 3 ∷ 4 ∷ []) ∷ []
unfolding components several grouped add_member unions union find_root compress root_of assign
    contains
components_two = refl

components-iff-Connected_example :
    (together 1 7 (components confirmed) ≡ true) ↔ Connected confirmed 1 7
components-iff-Connected_example =
    components-iff-Connected confirmed 1 7 (λ e. absurd (omega arith))

-- the entities 2 and 9 have the anchor 50, and 8 alone the anchor 60
abbrev taxonomy : List (EntityId × EntityId)
taxonomy = (2, 50) ∷ (9, 50) ∷ (8, 60) ∷ []

anchored_two :
    anchored_components confirmed taxonomy
    ≡ record { canonical = 3; members = 5 ∷ 3 ∷ 4 ∷ []; anchors = [] }
      ∷ record { canonical = 50; members = 9 ∷ 7 ∷ 1 ∷ 2 ∷ []; anchors = 50 ∷ [] }
      ∷ record { canonical = 60; members = 8 ∷ []; anchors = 60 ∷ [] }
      ∷ []
unfolding anchored_components anchored_forest sort_components insert_component anchored_groups
    targets_of canonical_id merge_targets by_target append_to grouped add_member unions union
    find_root compress root_of assign contains distinct
anchored_two = refl

anchored_components-iff-Identified_example :
    (identified 7 9 (anchored_components confirmed taxonomy) ≡ true)
    ↔ Identified confirmed taxonomy 7 9
anchored_components-iff-Identified_example =
    anchored_components-iff-Identified confirmed taxonomy 7 9 (λ e. absurd (omega arith))
