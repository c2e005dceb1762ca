-- ===== src/Credibility/Interest.antt =====
-- How interest moves the credibility of core/credibility.py.
use iknos.Prelude.{ℕ, ◌*◌, ◌≤◌, ◌≡◌, refl, min, some, arith, pos, unit}
use iknos.Epistemic.{EpistemicClass, observation, testimony, judgement}
use iknos.Credibility.{
  InterestAlignment, self_serving, not_involved, against_interest, unknown, effective_credibility,
  interest_modifier,
}

-- the credibility of a claim whose source has a prior on [0, 1]
abbrev pub Credible : ℕ → EpistemicClass → InterestAlignment → ℕ → Type 0
Credible p c a n = effective_credibility (pos p) c a ≡ some n

-- For a prior on [0, 1], a claim that serves its source is no more credible than a neutral one, and
-- an admission no less; a claim without a judged alignment is as credible as the prior, and no
-- credibility is above one.
pub effective_credibility-order :
    (p : ℕ) (c : EpistemicClass)
    → p ≤ unit
    → (s : ℕ) × (n : ℕ) × (a : ℕ) × Credible p c self_serving s
      × Credible p c not_involved n
      × Credible p c against_interest a
      × Credible p c unknown n
      × (n ≡ p * 100)
      × (s ≤ n)
      × (n ≤ a)
      × (a ≤ unit * 100)
unfolding effective_credibility interest_modifier
effective_credibility-order p observation h = (
  p * 100,
  p * 100,
  p * 100,
  ground arith,
  ground arith,
  ground arith,
  ground arith,
  refl,
  omega arith,
  omega arith,
  omega arith,
)
effective_credibility-order p testimony h = (
  p * 50,
  p * 100,
  min (unit * 100) (p * 130),
  ground arith,
  ground arith,
  ground arith,
  ground arith,
  refl,
  omega arith,
  ground arith,
  ground arith,
)
effective_credibility-order p judgement h = (
  p * 50,
  p * 100,
  min (unit * 100) (p * 130),
  ground arith,
  ground arith,
  ground arith,
  ground arith,
  refl,
  omega arith,
  ground arith,
  ground arith,
)

-- Interest does not move the credibility of an observation.
pub effective_credibility-observation :
    (p : ℕ) (a : InterestAlignment) → p ≤ unit → Credible p observation a (p * 100)
unfolding effective_credibility interest_modifier
effective_credibility-observation p a h = ground arith
