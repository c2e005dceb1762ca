-- ===== src/Governance/Tests.antt =====
-- The theorems on `Sensitivity` at two points.
use iknos.Prelude.{◌≡◌, ◌↔◌, [], ◌∷◌}
use iknos.Governance.{Sensitivity, internal, flatten}
use iknos.Governance.Lattice.{Below, flatten_iff}

abbrev memo : Sensitivity
memo = record { level = internal; compartments = 4 ∷ 2 ∷ [] }

-- the same set of compartments
abbrev copy : Sensitivity
copy = record { level = internal; compartments = 2 ∷ 4 ∷ 2 ∷ [] }

flatten_iff_example : (flatten memo ≡ flatten copy) ↔ (Below memo copy × Below copy memo)
flatten_iff_example = flatten_iff memo copy
