-- ===== src/SubjectiveLogic/Valid.antt =====
-- The fusions of core/subjective_logic.py return whole opinions of whole ones.
use iknos.Prelude.{
  ℕ, ◌+◌, ◌-◌, ◌*◌, ◌<◌, ◌≡◌, refl, sym, ap, ◌∙◌, ◌⊎◌, inl, inr, true, false, ◌&&◌, List, [], ◌∷◌,
  Each, mul_le_left, Bool-cases, arith,
}
use iknos.SubjectiveLogic.{
  Ratio, Opinion, tolerance, dogmatic, averaged, average_dogmatic, crossed, cumulative_fuse,
  averaging_fuse, Fusion, cumulative, averaging, fuse_pair, fuse_from, fuse,
}
use iknos.SubjectiveLogic.Opinions.{
  IsWhole, Made, checked-IsWhole, dogmatic-Short, exact-IsWhole, kappa, mass, shared,
}

module _ (a b : Opinion) (va : IsWhole a) (vb : IsWhole b) where
  pub product_pos : 0 < a.total * b.total
  product_pos =
      let p = mul_le_left 1 a.total b.total va.some_mass in let q = vb.some_mass in omega arith

  pub averaged-IsWhole : dogmatic a ≡ true → dogmatic b ≡ true → IsWhole (averaged a b)
  averaged-IsWhole da db =
      let sa = dogmatic-Short a va da in
      let sb = dogmatic-Short b vb db in
      let ea = ap (λ x. x * b.total) sa.adds in
      let eb = ap (λ x. x * a.total) sb.adds in
      let ca = mul_le_left (sa.rest * tolerance) a.total b.total sa.small in
      let cb = mul_le_left (sb.rest * tolerance) b.total a.total sb.small in
      let p = product_pos in
      record {
        fits = omega arith;
        close = omega arith;
        exact = inr refl;
        some_mass = omega arith;
        rate_low = va.rate_low;
      }

  -- one of two opinions leaves something uncertain
  open_case :
      (dogmatic a && dogmatic b) ≡ false
      → (0 < a.uncertainty) ⊎ ((a.uncertainty ≡ 0) × (0 < b.uncertainty))
  open_case h = ground arith

  pub rate_pos : (b' : ℕ) → 0 < b' → (t : ℕ) → 0 < t → 0 < b' * t
  rate_pos b' p t q = let r = mul_le_left 1 b' t p in omega arith

  -- With nothing uncertain on the left, both fusions return the left opinion, scaled.
  left_dogmatic :
      (uncertainty whole : ℕ)
      → a.uncertainty ≡ 0
      → 0 < b.uncertainty
      → uncertainty ≡ 0
      → whole ≡ b.uncertainty * a.total
      → IsWhole (crossed a b uncertainty whole)
  left_dogmatic uncertainty whole za pb zu ek =
      let zb = ap (λ x. b.belief * x) za in
      let zd = ap (λ x. b.disbelief * x) za in
      let f = mul_le_left (mass a) a.total b.uncertainty va.fits in
      let zm = ap (λ x. x * b.uncertainty) za in
      let c = mul_le_left ((a.total - mass a) * tolerance) a.total b.uncertainty va.close in
      let slack : (a.total - mass a) + mass a ≡ a.total = let g = va.fits in omega arith in
      let es = ap (λ x. x * b.uncertainty) slack in
      let p = rate_pos b.uncertainty pb a.total va.some_mass in
      record {
        fits = omega arith;
        close = omega arith;
        exact = inr zu;
        some_mass = omega arith;
        rate_low = va.rate_low;
      }

  right_dogmatic :
      (uncertainty whole : ℕ)
      → b.uncertainty ≡ 0
      → 0 < a.uncertainty
      → uncertainty ≡ 0
      → whole ≡ a.uncertainty * b.total
      → IsWhole (crossed a b uncertainty whole)
  right_dogmatic uncertainty whole zb pa zu ek =
      let za = ap (λ x. a.belief * x) zb in
      let zd = ap (λ x. a.disbelief * x) zb in
      let f = mul_le_left (mass b) b.total a.uncertainty vb.fits in
      let zm = ap (λ x. x * a.uncertainty) zb in
      let c = mul_le_left ((b.total - mass b) * tolerance) b.total a.uncertainty vb.close in
      let slack : (b.total - mass b) + mass b ≡ b.total = let g = vb.fits in omega arith in
      let es = ap (λ x. x * a.uncertainty) slack in
      let p = rate_pos a.uncertainty pa b.total vb.some_mass in
      record {
        fits = omega arith;
        close = omega arith;
        exact = inr zu;
        some_mass = omega arith;
        rate_low = va.rate_low;
      }

  pub kappa_pos : (0 < a.uncertainty) ⊎ (0 < b.uncertainty) → 0 < kappa a b
  kappa_pos (inl p) = let q = rate_pos a.uncertainty p b.total vb.some_mass in omega arith
  kappa_pos (inr p) = let q = rate_pos b.uncertainty p a.total va.some_mass in omega arith

  -- the ways in which the masses of two opinions that are not both dogmatic can add up
  pub ways :
      (dogmatic a && dogmatic b) ≡ false
      → ((0 < a.uncertainty) × (0 < b.uncertainty) × (mass a ≡ a.total) × (mass b ≡ b.total))
        ⊎ (((a.uncertainty ≡ 0) × (0 < b.uncertainty))
            ⊎ ((b.uncertainty ≡ 0) × (0 < a.uncertainty)))
  ways h = let ea = va.exact in let eb = vb.exact in ground arith

  pub averaging-IsWhole :
      (dogmatic a && dogmatic b) ≡ false
      → IsWhole (crossed a b (2 * (a.uncertainty * b.uncertainty)) (kappa a b))
  averaging-IsWhole h = elim (ways h) [
    | inl (pa, pb, ea, eb) ↦
        let xa = ap (λ x. x * b.uncertainty) ea in
        let xb = ap (λ x. x * a.uncertainty) eb in
        exact-IsWhole _ (omega arith) (kappa_pos (inl pa)) va.rate_low
    | inr (inl (za, pb)) ↦
        let z = ap (λ x. x * b.uncertainty) za in
        let t = ap (λ x. x * b.total) za in left_dogmatic _ _ za pb (omega arith) (omega arith)
    | inr (inr (zb, pa)) ↦
        let z = ap (λ x. a.uncertainty * x) zb in
        let t = ap (λ x. x * a.total) zb in right_dogmatic _ _ zb pa (omega arith) (omega arith)
  ]

  pub cumulative-IsWhole :
      (dogmatic a && dogmatic b) ≡ false
      → IsWhole
          (crossed a b (a.uncertainty * b.uncertainty) (kappa a b - a.uncertainty * b.uncertainty))
  cumulative-IsWhole h = elim (ways h) [
    | inl (pa, pb, ea, eb) ↦
        let xa = ap (λ x. x * b.uncertainty) ea in
        let xb = ap (λ x. x * a.uncertainty) eb in
        let p = rate_pos a.uncertainty pa b.uncertainty pb in
        exact-IsWhole _ (omega arith) (omega arith) va.rate_low
    | inr (inl (za, pb)) ↦
        let z = ap (λ x. x * b.uncertainty) za in
        let t = ap (λ x. x * b.total) za in left_dogmatic _ _ za pb (omega arith) (omega arith)
    | inr (inr (zb, pa)) ↦
        let z = ap (λ x. a.uncertainty * x) zb in
        let t = ap (λ x. x * a.total) zb in right_dogmatic _ _ zb pa (omega arith) (omega arith)
  ]

  pub fuse_pair-Made :
      (fusion : Fusion) → a.base_rate ≡ b.base_rate → Made a.base_rate (fuse_pair fusion a b)
  unfolding cumulative_fuse averaging_fuse average_dogmatic
  fuse_pair-Made cumulative same = elim (Bool-cases (dogmatic a && dogmatic b)) [
    | inl both ↦
        rw (shared a b same, both)
          (checked-IsWhole _ (averaged-IsWhole (ground arith) (ground arith)))
    | inr one_open ↦
        rw (shared a b same, one_open) (checked-IsWhole _ (cumulative-IsWhole one_open))
  ]
  fuse_pair-Made averaging same = elim (Bool-cases (dogmatic a && dogmatic b)) [
    | inl both ↦
        rw (shared a b same, both)
          (checked-IsWhole _ (averaged-IsWhole (ground arith) (ground arith)))
    | inr one_open ↦ rw (shared a b same, one_open) (checked-IsWhole _ (averaging-IsWhole one_open))
  ]

-- the opinion is whole, and over the base rate
abbrev pub Over : Ratio → Opinion → Type 0
Over rate o = IsWhole o × (o.base_rate ≡ rate)

fuse_from-Made :
    (fusion : Fusion) (rate : Ratio) (o : Opinion) (os : List Opinion)
    → Over rate o
    → Each (Over rate) os
    → Made rate (fuse_from fusion o os)
unfolding fuse_from
fuse_from-Made fusion rate o [] h hs = record {
  opinion = o;
  returns = refl;
  whole = h.0;
  same_rate = h.1;
}
fuse_from-Made fusion rate o (p ∷ os) h hs =
    let pair = fuse_pair-Made o p h.0 hs.0.0 fusion (h.1 ∙ sym hs.0.1) in
    let rest = fuse_from-Made fusion rate pair.opinion os (pair.whole, pair.same_rate ∙ h.1) hs.1 in
    rw (pair.returns, fuse_from) rest

-- Fusing one or more whole opinions over one base rate raises no error, under either operator, and
-- returns a whole opinion over that base rate.
pub fuse-Made :
    (fusion : Fusion) (rate : Ratio) (o : Opinion) (os : List Opinion)
    → Each (Over rate) (o ∷ os)
    → Made rate (fuse fusion (o ∷ os))
unfolding fuse
fuse-Made fusion rate o os h = fuse_from-Made fusion rate o os h.0 h.1
