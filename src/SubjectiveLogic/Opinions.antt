-- ===== src/SubjectiveLogic/Opinions.antt =====
-- What a made opinion of core/subjective_logic.py is, and the check that makes it.
use iknos.Prelude.{
  ℕ, ◌+◌, ◌-◌, ◌*◌, ◌≤◌, ◌<◌, ◌≡◌, refl, ap, ◌⊎◌, inl, inr, true, Option, some, arith,
}
use iknos.SubjectiveLogic.{Ratio, Opinion, tolerance, checked, shared_base_rate, dogmatic}

abbrev pub mass : Opinion → ℕ
mass o = o.belief + o.disbelief + o.uncertainty

-- A whole opinion: its masses share out the total exactly, unless it leaves nothing uncertain, where
-- they may fall short of it within the tolerance. The base rate is a probability. This is narrower
-- than the check of the program, which lets the masses miss the total at any uncertainty.
pub record IsWhole (o : Opinion) : Type 0 where
  pub fits : mass o ≤ o.total
  pub close : (o.total - mass o) * tolerance ≤ o.total
  pub exact : (mass o ≡ o.total) ⊎ (o.uncertainty ≡ 0)
  pub some_mass : 0 < o.total
  pub rate_low : o.base_rate.num ≤ o.base_rate.den

-- a whole opinion over a given base rate is returned
pub record Made (rate : Ratio) (made : Option Opinion) : Type 0 where
  pub opinion : Opinion
  pub returns : made ≡ some opinion
  pub whole : IsWhole opinion
  pub same_rate : opinion.base_rate ≡ rate

pub checked_whole : (o : Opinion) → IsWhole o → checked o ≡ some o
unfolding checked
checked_whole o v = let f = v.fits in let c = v.close in let r = v.rate_low in ground arith

pub checked-IsWhole : (o : Opinion) → IsWhole o → Made o.base_rate (checked o)
checked-IsWhole o v = record {
  opinion = o;
  returns = checked_whole o v;
  whole = v;
  same_rate = refl;
}

pub shared : (a b : Opinion) → a.base_rate ≡ b.base_rate → shared_base_rate a b ≡ true
shared a b e =
    let n = ap (λ r. r.num * b.base_rate.den) e in
    let d = ap (λ r. b.base_rate.num * r.den) e in ground arith

-- an opinion whose masses add up exactly is whole
pub exact-IsWhole :
    (o : Opinion) → mass o ≡ o.total → 0 < o.total → o.base_rate.num ≤ o.base_rate.den → IsWhole o
exact-IsWhole o e pos rate = record {
  fits = omega arith;
  close = omega arith;
  exact = inl e;
  some_mass = pos;
  rate_low = rate;
}

-- what the belief and the disbelief of a dogmatic opinion leave is within the tolerance
pub record Short (o : Opinion) : Type 0 where
  pub rest : ℕ
  pub adds : o.belief + o.disbelief + rest ≡ o.total
  pub small : rest * tolerance ≤ o.total

pub dogmatic-Short : (o : Opinion) → IsWhole o → dogmatic o ≡ true → Short o
dogmatic-Short o v d =
    let tiny : o.uncertainty * tolerance ≤ o.total = ground arith in
    let fits = v.fits in
    record {
      rest = o.total - (o.belief + o.disbelief);
      adds = omega arith;
      small = elim v.exact [
        | inl e ↦
            let same : o.total - (o.belief + o.disbelief) ≡ o.uncertainty = omega arith in
            rw same tiny
        | inr z ↦
            let same : o.total - (o.belief + o.disbelief) ≡ o.total - mass o = omega arith in
            rw same v.close
      ];
    }

abbrev pub kappa : Opinion → Opinion → ℕ
kappa a b = a.uncertainty * b.total + b.uncertainty * a.total
