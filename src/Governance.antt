-- ===== src/Governance.antt =====
-- `Sensitivity` of types/governance.py: a level and a set of compartments.
-- A compartment tag is an opaque string there: here a number.
pub mod Lattice
mod Tests
use iknos.Prelude.{
  ℕ, ◌≤◌, ◌≡◌, Bool, true, false, Option, none, some, List, [], ◌∷◌, ◌++◌, contains, sorted, ltb,
  if◌then◌else◌,
}

pub data SensitivityLevel : Type 0 where
  public internal confidential restricted : SensitivityLevel

-- `_SENSITIVITY_RANK`
abbrev pub sensitivity_rank : SensitivityLevel → ℕ
sensitivity_rank public = 0
sensitivity_rank internal = 1
sensitivity_rank confidential = 2
sensitivity_rank restricted = 3

pub record Sensitivity : Type 0 where
  pub level : SensitivityLevel
  pub compartments : List ℕ

-- `max(a, b, key=rank)`: the first of equal ranks
abbrev pub higher : SensitivityLevel → SensitivityLevel → SensitivityLevel
higher a b = if ltb (sensitivity_rank a) (sensitivity_rank b) then b else a

unfoldable pub lub : Sensitivity → Sensitivity → Sensitivity
lub s t = record { level = higher s.level t.level; compartments = s.compartments ++ t.compartments }

-- what `flatten` returns: the level, whose text there is its name, and the compartments in order
pub record SensitivityProps : Type 0 where
  pub sensitivity_level : SensitivityLevel
  pub sensitivity_compartments : List ℕ

unfoldable pub flatten : Sensitivity → SensitivityProps
unfolding sorted
flatten s = record { sensitivity_level = s.level; sensitivity_compartments = sorted s.compartments }
