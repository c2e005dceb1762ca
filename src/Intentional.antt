-- ===== src/Intentional.antt =====
-- types/intentional.py: the states of a hypothesis and the presentation of its acceptability.
-- An acceptability is read in millionths.
pub mod Bands
mod Tests
use iknos.Prelude.{
  ℕ, Bool, true, false, Option, none, some, List, [], ◌∷◌, leb, if◌then◌else◌, ℤ, unit, on_unit,
}

pub data TaskType : Type 0 where
  causal normative existence comparative : TaskType

pub data AnswerState : Type 0 where
  open_task partially_answered answered abandoned : AnswerState

pub data HypothesisState : Type 0 where
  supported unsupported refuted : HypothesisState

pub data AcceptabilityBand : Type 0 where
  band_false band_implausible band_plausible band_true : AcceptabilityBand

-- `_BAND_LOWER_BOUNDS`
abbrev pub band_lower_bounds : List (ℕ × AcceptabilityBand)
band_lower_bounds =
    (750000, band_true)
    ∷ (500000, band_plausible)
    ∷ (250000, band_implausible)
    ∷ (0, band_false)
    ∷ []

-- the loop; the end of the list is the AssertionError
unfoldable pub first_band : List (ℕ × AcceptabilityBand) → ℕ → Option AcceptabilityBand
first_band [] x = none
first_band ((lower, verdict) ∷ bounds) x =
    let rest = first_band bounds x in if leb lower x then some verdict else rest

abbrev band_within : Option ℕ → Option AcceptabilityBand
band_within none = none
band_within (some x) = first_band band_lower_bounds x

-- `none` is an error: a ValueError, since the AssertionError cannot come.
unfoldable pub band : ℤ → Option AcceptabilityBand
unfolding first_band
band acceptability = band_within (on_unit acceptability)
