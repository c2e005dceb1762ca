-- ===== src/SubjectiveLogic/Evidence.antt =====
-- Encoding and discounting in core/subjective_logic.py: counts add up under accumulation, and a
-- discount moves belief into uncertainty.
use iknos.Prelude.{
  ◌⊎◌, inl, inr, Option, none, some_inv, Bool, if◌then◌else◌, sym, ◌∙◌, Bool-cases, ℕ, ◌+◌, ◌-◌,
  ◌*◌, ◌≤◌, ◌<◌, ◌≡◌, refl, ap, true, false, ◌&&◌, some, leb, mul_le_left, mul_le_right, arith,
}
use iknos.SubjectiveLogic.{
  Ratio, Opinion, checked, tolerance, vacuous, opinion_from_evidence, discount, dogmatic, crossed,
  cumulative_fuse,
}
use iknos.SubjectiveLogic.Opinions.{mass, IsWhole, exact-IsWhole, checked_whole, kappa}
use iknos.SubjectiveLogic.Fusing.{SameShares, cumulative_open}

-- the opinion that counts of evidence give
abbrev pub counted : ℕ → ℕ → Ratio → ℕ → Opinion
counted positive negative base_rate prior_weight = record {
  belief = positive;
  disbelief = negative;
  uncertainty = prior_weight;
  total = positive + negative + prior_weight;
  base_rate = base_rate;
}

module _ (rate : Ratio) (low : rate.num ≤ rate.den) (weight : ℕ) (prior : 0 < weight) where
  counted-IsWhole : (p n : ℕ) → IsWhole (counted p n rate weight)
  counted-IsWhole p n = exact-IsWhole _ refl (omega arith) low

  -- Counts of evidence are accepted, and give the opinion of their shares.
  opinion_from_evidence-counted :
      (p n : ℕ) → opinion_from_evidence p n rate weight ≡ some (counted p n rate weight)
  unfolding opinion_from_evidence
  opinion_from_evidence-counted p n =
      let some_prior : leb weight 0 ≡ false = ground arith in
      rw some_prior (checked_whole _ (counted-IsWhole p n))

-- Accumulating the opinions of two bodies of evidence gives the shares of the evidence taken
-- together, where one of them is not so large that its prior weighs less than the tolerance.
pub cumulative_fuse-opinion_from_evidence :
    (rate : Ratio) (weight p n q m : ℕ)
    → rate.num ≤ rate.den
    → 0 < weight
    → p + n + weight < weight * tolerance
    → (a : Opinion) × (b : Opinion) × (o : Opinion) × (c : Opinion) × (opinion_from_evidence p n
          rate weight
        ≡ some a)
      × (opinion_from_evidence q m rate weight ≡ some b)
      × (cumulative_fuse a b ≡ some o)
      × (opinion_from_evidence (p + q) (n + m) rate weight ≡ some c)
      × SameShares o c
cumulative_fuse-opinion_from_evidence rate weight p n q m low prior small =
    let a = counted p n rate weight in
    let b = counted q m rate weight in
    let vague : (dogmatic a && dogmatic b) ≡ false = ground arith in
    let va = counted-IsWhole rate low weight prior p n in
    let vb = counted-IsWhole rate low weight prior q m in
    let whole : kappa a b - weight * weight ≡ weight * (p + q + (n + m) + weight) = omega arith in
    let eb = ap (λ x. (p + q) * x) whole in
    let ed = ap (λ x. (n + m) * x) whole in
    let eu = ap (λ x. weight * x) whole in
    (
      a,
      b,
      crossed a b (weight * weight) (kappa a b - weight * weight),
      counted (p + q) (n + m) rate weight,
      opinion_from_evidence-counted rate low weight prior p n,
      opinion_from_evidence-counted rate low weight prior q m,
      cumulative_open a b va vb refl vague,
      opinion_from_evidence-counted rate low weight prior (p + q) (n + m),
      record { belief = omega arith; disbelief = omega arith; uncertainty = omega arith },
    )

-- A vacuous opinion is neutral for accumulation: a whole opinion keeps its shares.
pub cumulative_fuse-vacuous :
    (a : Opinion)
    → IsWhole a
    → (v : Opinion) × (o : Opinion) × (vacuous a.base_rate ≡ some v)
      × (cumulative_fuse a v ≡ some o)
      × SameShares o a
unfolding vacuous
cumulative_fuse-vacuous a va =
    let v : Opinion = record {
      belief = 0;
      disbelief = 0;
      uncertainty = 1;
      total = 1;
      base_rate = a.base_rate;
    } in
    let vv = exact-IsWhole v refl (omega arith) va.rate_low in
    let vague : (dogmatic a && dogmatic v) ≡ false = ground arith in
    let whole : kappa a v - a.uncertainty * 1 ≡ a.total = omega arith in
    (
      v,
      crossed a v (a.uncertainty * 1) (kappa a v - a.uncertainty * 1),
      checked_whole v vv,
      cumulative_open a v va vv refl vague,
      record {
        belief = rw whole (omega arith);
        disbelief = rw whole (omega arith);
        uncertainty = rw whole (omega arith);
      },
    )

when_some : (b : Bool) (o p : Opinion) → (if b then some o else none) ≡ some p → o ≡ p
when_some true o p e = some_inv e
when_some false o p e = cc

pub checked_same : (o p : Opinion) → checked o ≡ some p → o ≡ p
unfolding checked
checked_same o p e = when_some _ o p e

pub accepted_rate : (o : Opinion) → checked o ≡ some o → o.base_rate.num ≤ o.base_rate.den
unfolding checked
accepted_rate o e = elim (Bool-cases (leb o.base_rate.num o.base_rate.den)) [
  | inl low ↦ ground arith
  | inr high ↦ absurd (
      let refused : checked o ≡ none = ground arith in
      let clash : none ≡ some o = sym refused ∙ e in cc)
]

-- what a discount that returns makes: both committed masses multiplied by the reliability, the rest
-- uncertain
pub record Discounted (o : Opinion) (reliability : Ratio) (made : Option Opinion) : Type 0 where
  pub opinion : Opinion
  pub returns : made ≡ some opinion
  pub whole : IsWhole opinion
  pub adds : mass opinion ≡ opinion.total
  pub same_rate : opinion.base_rate ≡ o.base_rate
  pub belief :
      opinion.belief * (reliability.den * o.total) ≡ reliability.num * o.belief * opinion.total
  pub disbelief :
      opinion.disbelief * (reliability.den * o.total)
      ≡ reliability.num * o.disbelief * opinion.total

-- Discounting any opinion that the check accepts, by a reliability up to one, returns an opinion
-- whose masses add up exactly, over the same base rate: its belief and its disbelief are multiplied
-- by the reliability, and the rest is uncertain. It raises an error in one case only, where the
-- tolerance of the check let belief and disbelief exceed one and the reliability leaves them so.
pub discount_lem :
    (o : Opinion) (reliability : Ratio)
    → checked o ≡ some o
    → 0 < o.total
    → 0 < reliability.den
    → reliability.num ≤ reliability.den
    → ((reliability.num * (o.belief + o.disbelief) ≤ reliability.den * o.total)
        × Discounted o reliability (discount o reliability))
      ⊎ ((o.total < o.belief + o.disbelief)
          × (reliability.den * o.total < reliability.num * (o.belief + o.disbelief))
          × (discount o reliability ≡ none))
unfolding discount
discount_lem o r accepted some_total some_den low =
    let committed = r.num * (o.belief + o.disbelief) in
    let whole = r.den * o.total in
    let ok : leb r.num r.den ≡ true = ground arith in
    elim (Bool-cases (leb committed whole)) [
      | inr over ↦
          let more : whole < committed = ground arith in
          let scaled = mul_le_left r.num r.den (o.belief + o.disbelief) low in
          let exceeds : o.total < o.belief + o.disbelief =
            elim (Bool-cases (leb (o.belief + o.disbelief) o.total)) [
              | inl fits ↦ absurd (
                  let h : o.belief + o.disbelief ≤ o.total = ground arith in
                  let bounded = mul_le_right (o.belief + o.disbelief) o.total r.den h in
                  omega arith)
              | inr exceeds ↦ ground arith
            ] in
          inr (exceeds, more, rw (ok, over) refl)
      | inl under ↦
          let fits : committed ≤ whole = ground arith in
          let some_whole = mul_le_left 1 r.den o.total some_den in
          let d : Opinion = record {
            belief = r.num * o.belief;
            disbelief = r.num * o.disbelief;
            uncertainty = r.den * o.total - r.num * (o.belief + o.disbelief);
            total = r.den * o.total;
            base_rate = o.base_rate;
          } in
          let all_told : mass d ≡ d.total = omega arith in
          let whole_d = exact-IsWhole d all_told (omega arith) (accepted_rate o accepted) in
          inl (
            fits,
            record {
              opinion = d;
              returns = rw (ok, under) (checked_whole d whole_d);
              whole = whole_d;
              adds = all_told;
              same_rate = refl;
              belief = omega arith;
              disbelief = omega arith;
            },
          )
    ]

-- a discount that returns keeps a whole opinion whole
pub discount-IsWhole :
    (o d : Opinion) (reliability : Ratio)
    → IsWhole o
    → 0 < reliability.den
    → discount o reliability ≡ some d
    → IsWhole d × (d.base_rate ≡ o.base_rate)
unfolding discount
discount-IsWhole o d r whole some_den e = elim (Bool-cases (leb r.num r.den)) [
  | inr high ↦ absurd (let h = rw high at e in cc)
  | inl low ↦
      elim (discount_lem o r (checked_whole o whole) whole.some_mass some_den (ground arith)) [
        | inl (fits, made) ↦
            let same : made.opinion ≡ d = some_inv (sym made.returns ∙ e) in
            let kept : IsWhole made.opinion × (made.opinion.base_rate ≡ o.base_rate) =
              (made.whole, made.same_rate) in
            rw same at kept
        | inr (over, _, refused) ↦ absurd (let h : none ≡ some d = sym refused ∙ e in cc)
      ]
]
