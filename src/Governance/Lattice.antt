-- ===== src/Governance/Lattice.antt =====
-- `Sensitivity.lub` is the least upper bound, and the stored form tells points apart and no more.
use iknos.Prelude.{
  ℕ, zero, suc, ◌↔◌, sym, ap, ◌∙◌, true, List, sorted, sorted_cong, ◌≤◌, ◌≡◌, refl, true, arith,
  contains, contains-append, contains-sorted, ltb, inl, inr, Bool-cases,
}
use iknos.Governance.{
  SensitivityLevel, Sensitivity, sensitivity_rank, higher, lub, SensitivityProps, flatten, public,
  internal, confidential, restricted,
}

-- the information-flow order: no higher a level, and no other compartment
pub record Below (s t : Sensitivity) : Type 0 where
  pub level : sensitivity_rank s.level ≤ sensitivity_rank t.level
  pub compartments : (c : ℕ) → contains s.compartments c ≡ true → contains t.compartments c ≡ true

Below-trans : (s t u : Sensitivity) → Below s t → Below t u → Below s u
Below-trans s t u st tu = record {
  level = let a = st.level in let b = tu.level in omega arith;
  compartments = λ c m. tu.compartments c (st.compartments c m);
}

higher_left : (a b : SensitivityLevel) → sensitivity_rank a ≤ sensitivity_rank (higher a b)
higher_left a b = elim (Bool-cases (ltb (sensitivity_rank a) (sensitivity_rank b))) [
  | inl less ↦ rw less (ground arith)
  | inr more ↦ rw more (omega arith)
]

higher_right : (a b : SensitivityLevel) → sensitivity_rank b ≤ sensitivity_rank (higher a b)
higher_right a b = elim (Bool-cases (ltb (sensitivity_rank a) (sensitivity_rank b))) [
  | inl less ↦ rw less (omega arith)
  | inr more ↦ rw more (ground arith)
]

higher_least :
    (a b : SensitivityLevel) (n : ℕ)
    → sensitivity_rank a ≤ n
    → sensitivity_rank b ≤ n
    → sensitivity_rank (higher a b) ≤ n
higher_least a b n h k = elim (Bool-cases (ltb (sensitivity_rank a) (sensitivity_rank b))) [
  | inl less ↦ rw less k
  | inr more ↦ rw more h
]

-- The join is above both points.
pub lub-upper : (s t : Sensitivity) → Below s (lub s t) × Below t (lub s t)
unfolding lub
lub-upper s t = (
  record {
    level = higher_left s.level t.level;
    compartments = λ c m. ground (arith, contains-append s.compartments t.compartments c);
  },
  record {
    level = higher_right s.level t.level;
    compartments = λ c m. ground (arith, contains-append s.compartments t.compartments c);
  },
)

-- The join is below every point that is above both.
pub lub-least : (s t u : Sensitivity) → Below s u → Below t u → Below (lub s t) u
unfolding lub
lub-least s t u below_s below_t = record {
  level = higher_least s.level t.level _ below_s.level below_t.level;
  compartments = λ c m. ground (
    arith,
    contains-append s.compartments t.compartments c,
    below_s.compartments c,
    below_t.compartments c,
  );
}

-- A point is above the join exactly if it is above both points: the join is their least upper bound.
pub lub_iff : (s t u : Sensitivity) → Below (lub s t) u ↔ (Below s u × Below t u)
lub_iff s t u = (
  λ above.
      let (left, right) = lub-upper s t in
      (Below-trans s (lub s t) u left above, Below-trans t (lub s t) u right above),
  λ (left, right). lub-least s t u left right,
)

abbrev level_of : ℕ → SensitivityLevel
level_of zero = public
level_of (suc zero) = internal
level_of (suc (suc zero)) = confidential
level_of (suc (suc (suc n))) = restricted

level_of-sensitivity_rank : (l : SensitivityLevel) → level_of (sensitivity_rank l) ≡ l
level_of-sensitivity_rank public = refl
level_of-sensitivity_rank internal = refl
level_of-sensitivity_rank confidential = refl
level_of-sensitivity_rank restricted = refl

same_level : (a b : SensitivityLevel) → sensitivity_rank a ≡ sensitivity_rank b → a ≡ b
same_level a b e = sym (level_of-sensitivity_rank a) ∙ ap level_of e ∙ level_of-sensitivity_rank b

abbrev props : SensitivityLevel → List ℕ → SensitivityProps
props l cs = record { sensitivity_level = l; sensitivity_compartments = cs }

-- Two sensitivities are stored alike exactly if they are the same point: each is below the other.
pub flatten_iff : (s t : Sensitivity) → (flatten s ≡ flatten t) ↔ (Below s t × Below t s)
unfolding flatten
flatten_iff s t = (
  λ same.
      let level = ap (λ (p : SensitivityProps). sensitivity_rank p.sensitivity_level) same in
      let listed : sorted s.compartments ≡ sorted t.compartments =
        ap (λ (p : SensitivityProps). p.sensitivity_compartments) same in
      let alike : (c : ℕ) → contains s.compartments c ≡ contains t.compartments c = λ c.
        sym (contains-sorted s.compartments c)
        ∙ ap (λ cs. contains cs c) listed
        ∙ contains-sorted t.compartments c in
      (
        record { level = omega arith; compartments = λ c m. sym (alike c) ∙ m },
        record { level = omega arith; compartments = λ c m. alike c ∙ m },
      ),
  λ (below, above).
      let level =
        same_level s.level t.level (let h = below.level in let k = above.level in omega arith) in
      let listed = sorted_cong s.compartments t.compartments (λ c.
        elim (Bool-cases (contains s.compartments c)) [
          | inl has ↦ has ∙ sym (below.compartments c has)
          | inr has_not ↦ elim (Bool-cases (contains t.compartments c)) [
            | inl has ↦ absurd (let m = above.compartments c has in cc)
            | inr lacks ↦ has_not ∙ sym lacks
          ]
        ]) in
      ap (λ (l : SensitivityLevel). props l (sorted s.compartments)) level
      ∙ ap (λ (cs : List ℕ). props t.level cs) listed,
)
