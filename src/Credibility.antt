-- ===== src/Credibility.antt =====
-- core/credibility.py: the credibility of a claim from the prior of its source and its interest.
-- A prior and a credibility are read in millionths, a modifier in hundredths; the product is exact.
pub mod Interest
mod Tests
use iknos.Prelude.{ℕ, ◌+◌, ◌-◌, ◌*◌, Option, none, some, min, ℤ, unit, on_unit}
use iknos.Epistemic.{EpistemicClass, observation, testimony, judgement}

pub data InterestAlignment : Type 0 where
  self_serving not_involved against_interest unknown : InterestAlignment

-- `_CLASS_INTEREST_GATE`
abbrev pub class_interest_gate : EpistemicClass → ℕ
class_interest_gate observation = 0
class_interest_gate testimony = 1
class_interest_gate judgement = 1

-- `_ALIGNMENT_MODIFIER`
abbrev pub alignment_modifier : InterestAlignment → ℕ
alignment_modifier self_serving = 50
alignment_modifier not_involved = 100
alignment_modifier against_interest = 130
alignment_modifier unknown = 100

-- `1.0 + gate * (raw - 1.0)`; a gate is at most one, so the subtraction does not stop at zero
unfoldable pub interest_modifier : EpistemicClass → InterestAlignment → ℕ
interest_modifier c a =
    let gate = class_interest_gate c in (100 + gate * alignment_modifier a) - gate * 100

abbrev clamped : Option ℕ → ℕ → Option ℕ
clamped none modifier = none
clamped (some prior) modifier = some (min (unit * 100) (prior * modifier))

-- In units of 10 ^ -8. `none` is the ValueError of a prior out of range.
unfoldable pub effective_credibility : ℤ → EpistemicClass → InterestAlignment → Option ℕ
unfolding interest_modifier
effective_credibility prior c a = clamped (on_unit prior) (interest_modifier c a)
