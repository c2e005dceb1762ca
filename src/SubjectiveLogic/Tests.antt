-- ===== src/SubjectiveLogic/Tests.antt =====
-- Opinions from counts of evidence, and the theorems at them.
use iknos.Prelude.{◌+◌, ◌*◌, ◌≤◌, ◌<◌, ◌≡◌, ◌⊎◌, refl, none, some, List, [], ◌∷◌, arith}
use iknos.SubjectiveLogic.{
  Ratio, Opinion, checked, vacuous, opinion_from_evidence, discount, cumulative_fuse,
  averaging_fuse, averaging,
}
use iknos.SubjectiveLogic.Opinions.{IsWhole, exact-IsWhole}
use iknos.SubjectiveLogic.Pipeline.{encoded, Fused, fuse-Built}
use iknos.SubjectiveLogic.Fusing.{
  SameShares, ◌⊑◌, averaging_fuse_between, cumulative_fuse_below, averaging_fuse_self,
}
use iknos.SubjectiveLogic.Evidence.{
  counted, cumulative_fuse-opinion_from_evidence, cumulative_fuse-vacuous, Discounted, discount_lem,
}

abbrev even : Ratio
even = record { num = 1; den = 2 }

-- three samples for and one against; one for and none against
abbrev strong : Opinion
strong = counted 3 1 even 2

abbrev weak : Opinion
weak = counted 1 0 even 2

strong-IsWhole : IsWhole strong
strong-IsWhole = exact-IsWhole strong (omega arith) (omega arith) (omega arith)

weak-IsWhole : IsWhole weak
weak-IsWhole = exact-IsWhole weak (omega arith) (omega arith) (omega arith)

abbrev both : List Opinion
both = strong ∷ weak ∷ []

bad_reliability : discount strong record { num = 3; den = 2 } ≡ none
unfolding discount
bad_reliability = refl

strong_encoded : opinion_from_evidence 3 1 even 2 ≡ some strong
unfolding opinion_from_evidence checked
strong_encoded = refl

weak_encoded : opinion_from_evidence 1 0 even 2 ≡ some weak
unfolding opinion_from_evidence checked
weak_encoded = refl

fuse-Built_example : Fused even averaging both
fuse-Built_example =
    fuse-Built even averaging strong (weak ∷ [])
      (encoded 3 1 2 strong strong_encoded, (encoded 1 0 2 weak weak_encoded, tt))

-- The check accepts an opinion that misses one by less than the tolerance; accumulating it with
-- itself doubles what it misses, which raises an error.
abbrev short_of_one : Opinion
short_of_one = record {
  belief = 0;
  disbelief = 0;
  uncertainty = 9999999991;
  total = 10000000000;
  base_rate = even;
}

short_accepted : checked short_of_one ≡ some short_of_one
unfolding checked
short_accepted = refl

short_refused : cumulative_fuse short_of_one short_of_one ≡ none
unfolding cumulative_fuse checked
short_refused = refl

-- belief and disbelief exceed one by less than the tolerance
abbrev beyond_one : Opinion
beyond_one = record {
  belief = 5000000000;
  disbelief = 5000000009;
  uncertainty = 0;
  total = 10000000000;
  base_rate = even;
}

beyond_accepted : checked beyond_one ≡ some beyond_one
unfolding checked
beyond_accepted = refl

beyond_refused : discount beyond_one record { num = 1; den = 1 } ≡ none
unfolding discount
beyond_refused = refl

averaging_fuse_between_example :
    (o : Opinion) × (averaging_fuse strong weak ≡ some o)
    × (((strong ⊑ o) × (o ⊑ weak)) ⊎ ((weak ⊑ o) × (o ⊑ strong)))
averaging_fuse_between_example =
    averaging_fuse_between strong weak strong-IsWhole weak-IsWhole refl refl

cumulative_fuse_below_example :
    (o : Opinion) × (cumulative_fuse strong weak ≡ some o) × (o ⊑ strong) × (o ⊑ weak)
cumulative_fuse_below_example =
    cumulative_fuse_below strong weak strong-IsWhole weak-IsWhole refl refl

averaging_fuse_self_example :
    (o : Opinion) × (averaging_fuse strong strong ≡ some o) × SameShares o strong
averaging_fuse_self_example = averaging_fuse_self strong strong-IsWhole (λ e. cc)

cumulative_fuse-opinion_from_evidence_example :
    (a : Opinion) × (b : Opinion) × (o : Opinion) × (c : Opinion) × (opinion_from_evidence 3 1 even
        2
      ≡ some a)
    × (opinion_from_evidence 1 0 even 2 ≡ some b)
    × (cumulative_fuse a b ≡ some o)
    × (opinion_from_evidence (3 + 1) (1 + 0) even 2 ≡ some c)
    × SameShares o c
cumulative_fuse-opinion_from_evidence_example =
    cumulative_fuse-opinion_from_evidence even 2 3 1 1 0 (omega arith) (omega arith) (omega arith)

abbrev half : Ratio
half = record { num = 1; den = 2 }

strong_accepted : checked strong ≡ some strong
unfolding checked
strong_accepted = refl

discount_lem_example :
    ((half.num * (strong.belief + strong.disbelief) ≤ half.den * strong.total)
      × Discounted strong half (discount strong half))
    ⊎ ((strong.total < strong.belief + strong.disbelief)
        × (half.den * strong.total < half.num * (strong.belief + strong.disbelief))
        × (discount strong half ≡ none))
discount_lem_example =
    discount_lem strong half strong_accepted (omega arith) (omega arith) (omega arith)

cumulative_fuse-vacuous_example :
    (v : Opinion) × (o : Opinion) × (vacuous strong.base_rate ≡ some v)
    × (cumulative_fuse strong v ≡ some o)
    × SameShares o strong
cumulative_fuse-vacuous_example = cumulative_fuse-vacuous strong strong-IsWhole
