-- ===== src/SubjectiveLogic.antt =====
-- core/subjective_logic.py: opinions, their encoding from evidence, discounting and fusion. The
-- masses of an opinion are exact: numerators over its `total`.
pub mod Opinions
pub mod Valid
pub mod Fusing
pub mod Evidence
pub mod Pipeline
mod Tests
use iknos.Prelude.{
  ℕ, ◌+◌, ◌-◌, ◌*◌, Bool, ◌&&◌, Option, none, some, List, [], ◌∷◌, leb, if◌then◌else◌,
}

pub record Ratio : Type 0 where
  pub num : ℕ
  pub den : ℕ

pub record Opinion : Type 0 where
  pub belief : ℕ
  pub disbelief : ℕ
  pub uncertainty : ℕ
  pub total : ℕ
  pub base_rate : Ratio

-- `_TOL` is one part in this many
abbrev pub tolerance : ℕ
tolerance = 1000000000

abbrev pub gap : ℕ → ℕ → ℕ
gap a b = (a - b) + (b - a)

-- `__post_init__`; `none` is the `ValueError`
unfoldable pub checked : Opinion → Option Opinion
checked o =
    if leb o.belief o.total
      && leb o.disbelief o.total
      && leb o.uncertainty o.total
      && leb o.base_rate.num o.base_rate.den
      && leb (gap (o.belief + o.disbelief + o.uncertainty) o.total * tolerance) o.total
    then some o
    else none

unfoldable pub vacuous : Ratio → Option Opinion
vacuous base_rate =
    checked record { belief = 0; disbelief = 0; uncertainty = 1; total = 1; base_rate = base_rate }

unfoldable pub opinion_from_evidence : ℕ → ℕ → Ratio → ℕ → Option Opinion
opinion_from_evidence positive negative base_rate prior_weight =
    if leb prior_weight 0
    then none
    else checked record {
      belief = positive;
      disbelief = negative;
      uncertainty = prior_weight;
      total = positive + negative + prior_weight;
      base_rate = base_rate;
    }

unfoldable pub discount : Opinion → Ratio → Option Opinion
discount o reliability =
    let committed = reliability.num * (o.belief + o.disbelief) in
    let whole = reliability.den * o.total in
    if leb reliability.num reliability.den && leb committed whole
    then checked record {
      belief = reliability.num * o.belief;
      disbelief = reliability.num * o.disbelief;
      uncertainty = whole - committed;
      total = whole;
      base_rate = o.base_rate;
    }
    else none

-- `_require_shared_base_rate` raises when this fails
abbrev pub shared_base_rate : Opinion → Opinion → Bool
shared_base_rate a b =
    leb (gap (a.base_rate.num * b.base_rate.den) (b.base_rate.num * a.base_rate.den) * tolerance)
      (a.base_rate.den * b.base_rate.den)

-- `uncertainty <= _TOL`
abbrev pub dogmatic : Opinion → Bool
dogmatic o = leb (o.uncertainty * tolerance) o.total

abbrev pub averaged : Opinion → Opinion → Opinion
averaged a b = record {
  belief = a.belief * b.total + b.belief * a.total;
  disbelief = a.disbelief * b.total + b.disbelief * a.total;
  uncertainty = 0;
  total = 2 * (a.total * b.total);
  base_rate = a.base_rate;
}

unfoldable pub average_dogmatic : Opinion → Opinion → Option Opinion
average_dogmatic a b = checked (averaged a b)

abbrev pub crossed : Opinion → Opinion → ℕ → ℕ → Opinion
crossed a b uncertainty kappa = record {
  belief = a.belief * b.uncertainty + b.belief * a.uncertainty;
  disbelief = a.disbelief * b.uncertainty + b.disbelief * a.uncertainty;
  uncertainty = uncertainty;
  total = kappa;
  base_rate = a.base_rate;
}

unfoldable pub cumulative_fuse : Opinion → Opinion → Option Opinion
cumulative_fuse a b =
    if shared_base_rate a b
    then if dogmatic a && dogmatic b
      then average_dogmatic a b
      else checked (
          crossed a b (a.uncertainty * b.uncertainty)
            (a.uncertainty * b.total + b.uncertainty * a.total - a.uncertainty * b.uncertainty))
    else none

unfoldable pub averaging_fuse : Opinion → Opinion → Option Opinion
averaging_fuse a b =
    if shared_base_rate a b
    then if dogmatic a && dogmatic b
      then average_dogmatic a b
      else checked (
          crossed a b (2 * (a.uncertainty * b.uncertainty))
            (a.uncertainty * b.total + b.uncertainty * a.total))
    else none

pub data Fusion : Type 0 where
  cumulative averaging : Fusion

abbrev pub fuse_pair : Fusion → Opinion → Opinion → Option Opinion
fuse_pair cumulative = cumulative_fuse
fuse_pair averaging = averaging_fuse

unfoldable pub fuse_from : Fusion → Opinion → List Opinion → Option Opinion
fuse_from fusion result [] = some result
fuse_from fusion result (o ∷ os) = elim (fuse_pair fusion result o) [
  | none ↦ none
  | some next ↦ fuse_from fusion next os
]

unfoldable pub fuse : Fusion → List Opinion → Option Opinion
fuse fusion [] = none
fuse fusion (o ∷ os) = fuse_from fusion o os
