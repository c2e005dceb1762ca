-- ===== src/SubjectiveLogic/Fusing.antt =====
-- The two fusions of core/subjective_logic.py: averaging does not create certainty, accumulating
-- does.
use iknos.Prelude.{
  ◌+◌, ◌-◌, ◌*◌, ◌≤◌, ◌≡◌, refl, ap, ◌⊎◌, inl, inr, true, false, ◌&&◌, some, leb, mul_le_right,
  Bool-cases, arith,
}
use iknos.SubjectiveLogic.{
  Opinion, dogmatic, averaged, average_dogmatic, crossed, cumulative_fuse, averaging_fuse,
}
use iknos.SubjectiveLogic.Opinions.{IsWhole, shared, checked_whole, kappa}
use iknos.SubjectiveLogic.Valid.{averaging-IsWhole, cumulative-IsWhole, averaged-IsWhole}

-- two opinions with the same shares
pub record SameShares (o p : Opinion) : Type 0 where
  pub belief : o.belief * p.total ≡ p.belief * o.total
  pub disbelief : o.disbelief * p.total ≡ p.disbelief * o.total
  pub uncertainty : o.uncertainty * p.total ≡ p.uncertainty * o.total

module _ (a b : Opinion) (va : IsWhole a) (vb : IsWhole b) (same : a.base_rate ≡ b.base_rate)
    (one_open : (dogmatic a && dogmatic b) ≡ false) where
  averaging_open :
      averaging_fuse a b ≡ some (crossed a b (2 * (a.uncertainty * b.uncertainty)) (kappa a b))
  unfolding averaging_fuse
  averaging_open =
      rw (shared a b same, one_open) (checked_whole _ (averaging-IsWhole a b va vb one_open))

  pub cumulative_open :
      cumulative_fuse a b
      ≡ some
          (crossed a b (a.uncertainty * b.uncertainty) (kappa a b - a.uncertainty * b.uncertainty))
  unfolding cumulative_fuse
  cumulative_open =
      rw (shared a b same, one_open) (checked_whole _ (cumulative-IsWhole a b va vb one_open))

-- the uncertain share of one opinion is at most that of another
infix 4 ◌⊑◌
abbrev pub ◌⊑◌ : Opinion → Opinion → Type 0
o ⊑ p = o.uncertainty * p.total ≤ p.uncertainty * o.total

-- Where not both are dogmatic, averaging two whole opinions over one base rate returns an opinion
-- whose uncertain share lies between theirs: it is never more certain than the surer of the two.
-- A whole opinion has masses that add up exactly, or leaves nothing uncertain and falls short of one
-- within the tolerance.
pub averaging_fuse_between :
    (a b : Opinion)
    → IsWhole a
    → IsWhole b
    → a.base_rate ≡ b.base_rate
    → (dogmatic a && dogmatic b) ≡ false
    → (o : Opinion) × (averaging_fuse a b ≡ some o) × (((a ⊑ o) × (o ⊑ b)) ⊎ ((b ⊑ o) × (o ⊑ a)))
averaging_fuse_between a b va vb same one_open = (
  crossed a b (2 * (a.uncertainty * b.uncertainty)) (kappa a b),
  averaging_open a b va vb same one_open,
  elim (Bool-cases (leb (a.uncertainty * b.total) (b.uncertainty * a.total))) [
    | inl surer ↦
        let h : a.uncertainty * b.total ≤ b.uncertainty * a.total = ground arith in
        let x = mul_le_right (a.uncertainty * b.total) (b.uncertainty * a.total) a.uncertainty h in
        let y = mul_le_right (a.uncertainty * b.total) (b.uncertainty * a.total) b.uncertainty h in
        inl (omega arith, omega arith)
    | inr vaguer ↦
        let h : b.uncertainty * a.total ≤ a.uncertainty * b.total = ground arith in
        let x = mul_le_right (b.uncertainty * a.total) (a.uncertainty * b.total) a.uncertainty h in
        let y = mul_le_right (b.uncertainty * a.total) (a.uncertainty * b.total) b.uncertainty h in
        inr (omega arith, omega arith)
  ],
)

-- Where not both are dogmatic, accumulating two whole opinions over one base rate returns an opinion
-- that is at least as certain as each of them.
pub cumulative_fuse_below :
    (a b : Opinion)
    → IsWhole a
    → IsWhole b
    → a.base_rate ≡ b.base_rate
    → (dogmatic a && dogmatic b) ≡ false
    → (o : Opinion) × (cumulative_fuse a b ≡ some o) × (o ⊑ a) × (o ⊑ b)
cumulative_fuse_below a b va vb same one_open =
    let ua = a.uncertainty in
    let ub = b.uncertainty in
    let fa : ua ≤ a.total = let f = va.fits in omega arith in
    let fb : ub ≤ b.total = let f = vb.fits in omega arith in
    let less : ua * ub ≤ ua * b.total = mul_le_right ub b.total ua fb in
    let back : (kappa a b - ua * ub) + ua * ub ≡ kappa a b = omega arith in
    let xa = ap (λ x. ua * x) back in
    let xb = ap (λ x. ub * x) back in
    let ya = mul_le_right (ua * ub) (ua * b.total) ua less in
    let yb = mul_le_right (ub * ua) (ub * a.total) ub (mul_le_right ua a.total ub fa) in
    (
      crossed a b (ua * ub) (kappa a b - ua * ub),
      cumulative_open a b va vb same one_open,
      omega arith,
      omega arith,
    )

-- Averaging a whole opinion with itself returns its shares, unless it is uncertain by less than the
-- tolerance: there the uncertain share is dropped. A whole opinion has masses that add up exactly, or
-- leaves nothing uncertain and falls short of one within the tolerance.
pub averaging_fuse_self :
    (a : Opinion)
    → IsWhole a
    → (dogmatic a ≡ true → a.uncertainty ≡ 0)
    → (o : Opinion) × (averaging_fuse a a ≡ some o) × SameShares o a
unfolding averaging_fuse average_dogmatic
averaging_fuse_self a va whole = elim (Bool-cases (dogmatic a)) [
  | inl all_known ↦
      let z = whole all_known in
      let zt = ap (λ x. x * (2 * (a.total * a.total))) z in
      (
        averaged a a,
        rw (shared a a refl, all_known)
            (checked_whole _ (averaged-IsWhole a a va va all_known all_known)),
        record { belief = omega arith; disbelief = omega arith; uncertainty = omega arith },
      )
  | inr open_to_doubt ↦ (
    crossed a a (2 * (a.uncertainty * a.uncertainty)) (kappa a a),
    averaging_open a a va va refl (ground arith),
    record { belief = omega arith; disbelief = omega arith; uncertainty = omega arith },
  )
]
