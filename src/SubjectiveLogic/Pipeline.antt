-- ===== src/SubjectiveLogic/Pipeline.antt =====
-- The opinions that the operations of core/subjective_logic.py make of evidence: fusing them raises no
-- error.
use iknos.Prelude.{
  ℕ, ◌<◌, ◌≡◌, refl, sym, ap, ◌∙◌, inl, inr, some, List, [], ◌∷◌, Each, leb, Bool-cases, some_inv,
  arith,
}
use iknos.SubjectiveLogic.{
  Ratio, Opinion, checked, vacuous, opinion_from_evidence, discount, Fusion, fuse_pair, fuse_from,
  fuse,
}
use iknos.SubjectiveLogic.Opinions.{IsWhole, exact-IsWhole, mass}
use iknos.SubjectiveLogic.Valid.{fuse_pair-Made}
use iknos.SubjectiveLogic.Evidence.{counted, accepted_rate, checked_same, discount-IsWhole}

-- an opinion over `rate` that comes from counts of evidence or from none, through discounts and
-- fusions
pub data Built (rate : Ratio) : Opinion → Type 0 where
  encoded :
      (positive negative prior_weight : ℕ) (o : Opinion)
      → opinion_from_evidence positive negative rate prior_weight ≡ some o
      → Built rate o
  ignorant : (o : Opinion) → vacuous rate ≡ some o → Built rate o
  discounted :
      (o d : Opinion) (reliability : Ratio)
      → Built rate o
      → 0 < reliability.den
      → discount o reliability ≡ some d
      → Built rate d
  joined :
      (fusion : Fusion) (a b o : Opinion)
      → Built rate a
      → Built rate b
      → fuse_pair fusion a b ≡ some o
      → Built rate o

abbrev WholeOver : Ratio → Opinion → Type 0
WholeOver rate o = IsWhole o × (o.base_rate ≡ rate)

checked-WholeOver :
    (rate : Ratio) (made o : Opinion)
    → mass made ≡ made.total
    → 0 < made.total
    → made.base_rate ≡ rate
    → checked made ≡ some o
    → WholeOver rate o
checked-WholeOver rate made o adds pos over e =
    let same : made ≡ o = checked_same made o e in
    let accepted : checked made ≡ some made = e ∙ ap some (sym same) in
    let kept : WholeOver rate made =
      (exact-IsWhole made adds pos (accepted_rate made accepted), over) in
    rw same at kept

encoded-WholeOver :
    (rate : Ratio) (p n w : ℕ) (o : Opinion)
    → opinion_from_evidence p n rate w ≡ some o
    → WholeOver rate o
unfolding opinion_from_evidence
encoded-WholeOver rate p n w o e = elim (Bool-cases (leb w 0)) [
  | inl no_prior ↦ absurd (let h = rw no_prior at e in cc)
  | inr prior ↦
      checked-WholeOver rate (counted p n rate w) o (omega arith)
        (let some_prior : 0 < w = ground arith in omega arith) refl (rw prior at e)
]

Built-WholeOver : (rate : Ratio) (o : Opinion) → Built rate o → WholeOver rate o
unfolding vacuous
Built-WholeOver rate o (encoded p n w _ e) = encoded-WholeOver rate p n w o e
Built-WholeOver rate o (ignorant _ e) =
    checked-WholeOver rate
      record { belief = 0; disbelief = 0; uncertainty = 1; total = 1; base_rate = rate } o
      (omega arith) (omega arith) refl e
Built-WholeOver rate d (discounted o _ r built den e) =
    let (whole, over) = Built-WholeOver rate o built in
    let made = discount-IsWhole o d r whole den e in (made.0, made.1 ∙ over)
Built-WholeOver rate o (joined fusion a b _ built_a built_b e) =
    let (wa, ra) = Built-WholeOver rate a built_a in
    let (wb, rb) = Built-WholeOver rate b built_b in
    let made = fuse_pair-Made a b wa wb fusion (ra ∙ sym rb) in
    let same : made.opinion ≡ o = some_inv (sym made.returns ∙ e) in
    let kept : WholeOver rate made.opinion = (made.whole, made.same_rate ∙ ra) in rw same at kept

-- what a fusion of such opinions returns
pub record Fused (rate : Ratio) (fusion : Fusion) (os : List Opinion) : Type 0 where
  pub opinion : Opinion
  pub returns : fuse fusion os ≡ some opinion
  pub built : Built rate opinion
  pub whole : IsWhole opinion
  pub same_rate : opinion.base_rate ≡ rate

fuse_from-Built :
    (rate : Ratio) (fusion : Fusion) (o : Opinion) (os : List Opinion)
    → Built rate o
    → Each (Built rate) os
    → (made : Opinion) × (fuse_from fusion o os ≡ some made) × Built rate made
unfolding fuse_from
fuse_from-Built rate fusion o [] built each = (o, refl, built)
fuse_from-Built rate fusion o (p ∷ os) built each =
    let (wo, ro) = Built-WholeOver rate o built in
    let (wp, rp) = Built-WholeOver rate p each.0 in
    let pair = fuse_pair-Made o p wo wp fusion (ro ∙ sym rp) in
    let next = joined fusion o p pair.opinion built each.0 pair.returns in
    let rest = fuse_from-Built rate fusion pair.opinion os next each.1 in
    rw (pair.returns, fuse_from) rest

-- Opinions over one base rate that come from counts of evidence, or from none, through discounts and
-- fusions can be fused: under either operator, one or more of them raise no error and return such an
-- opinion again. Its masses add up exactly, unless it leaves nothing uncertain, where they fall
-- short of one by at most the tolerance.
pub fuse-Built :
    (rate : Ratio) (fusion : Fusion) (o : Opinion) (os : List Opinion)
    → Each (Built rate) (o ∷ os)
    → Fused rate fusion (o ∷ os)
unfolding fuse
fuse-Built rate fusion o os each =
    let (made, e, built) = fuse_from-Built rate fusion o os each.0 each.1 in
    let (whole, same) = Built-WholeOver rate made built in
    record { opinion = made; returns = e; built = built; whole = whole; same_rate = same }
