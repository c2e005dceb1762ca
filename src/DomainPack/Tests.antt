-- ===== src/DomainPack/Tests.antt =====
-- Runs of the check of a domain pack and of its closure, and the theorems at them.
use iknos.Prelude.{
  ℕ, ◌≡◌, ◌↔◌, refl, true, false, none, some, List, [], ◌∷◌, keep, contains, distinct, sorted, Each,
  arith,
}
use iknos.DomainPack.{
  reference, component_integral, stuff_object, PartOfRelation, DomainPack, cyclic, linked, safe,
  targets, in_degrees, release, drain, drained, reject_cycles, check_parents, check_kinds,
  check_relations, count_pairs, keys, validate_structure, enqueue, roll, rollups_from, rollup_edges,
  transitive_closure,
}
use iknos.DomainPack.Chains.{Chain, Behind}
use iknos.DomainPack.Structure.{WellFormed, Joins, validate_structure_iff, reject_cycles_lem}
use iknos.DomainPack.Closure.{rolled_up, transitive_closure_iff}

-- a roller is part of a bearing, which is part of a gearbox; the bearing is made of steel
abbrev steps : List PartOfRelation
steps =
    record { part = 1; whole = 2; meronymy = component_integral }
    ∷ record { part = 2; whole = 3; meronymy = component_integral }
    ∷ record { part = 4; whole = 2; meronymy = stuff_object }
    ∷ []

abbrev with_steps : List PartOfRelation → DomainPack
with_steps rels = record {
  name = 0;
  version = 1;
  tier = reference;
  source = 7;
  reliability_prior = 900000;
  description = none;
  entity_types =
      record { name = 10; description = none; parent = none }
      ∷ record { name = 11; description = none; parent = some 10 }
      ∷ [];
  entities =
      record { key = 1; label = 1; kind = 11 }
      ∷ record { key = 2; label = 2; kind = 11 }
      ∷ record { key = 3; label = 3; kind = 10 }
      ∷ record { key = 4; label = 4; kind = 10 }
      ∷ [];
  part_of = rels;
}

abbrev sample : DomainPack
sample = with_steps steps

abbrev looped : DomainPack
looped = with_steps (
    record { part = 3; whole = 1; meronymy = component_integral }
    ∷ record { part = 3; whole = 4; meronymy = component_integral }
    ∷ steps)

sample_valid : validate_structure sample ≡ none
unfolding validate_structure distinct contains check_parents check_kinds check_relations count_pairs
    reject_cycles drained in_degrees keep drain release targets
sample_valid = refl

-- the cycle is 1, 2, 3; the key 4 stands behind it
abbrev involved : List ℕ
involved = 1 ∷ 2 ∷ 3 ∷ 4 ∷ []

looped_cyclic : reject_cycles looped.part_of (distinct (keys looped)) ≡ some (cyclic involved)
unfolding distinct contains reject_cycles drained in_degrees keep drain release targets sorted
looped_cyclic = refl

sample_closure :
    (rolled_up (transitive_closure sample) 1 3 ≡ true)
    × (rolled_up (transitive_closure sample) 4 3 ≡ false)
unfolding transitive_closure rollup_edges rollups_from roll enqueue targets safe contains sorted
    distinct
sample_closure = (refl, refl)

validate_structure_iff_example : (validate_structure sample ≡ none) ↔ WellFormed sample
validate_structure_iff_example = validate_structure_iff sample

looped_joined : Each (Joins (keys looped)) looped.part_of
unfolding contains
looped_joined = (
  (refl, refl, omega arith),
  (
    (refl, refl, omega arith),
    ((refl, refl, omega arith), ((refl, refl, omega arith), ((refl, refl, omega arith), tt))),
  ),
)

reject_cycles_lem_example : (contains involved 4 ≡ true) ↔ Behind (linked looped.part_of) 4
reject_cycles_lem_example = reject_cycles_lem looped involved looped_joined looped_cyclic 4

transitive_closure_iff_example :
    (rolled_up (transitive_closure sample) 1 3 ≡ true)
    ↔ (Chain (linked (safe sample.part_of)) 1 3 × (linked sample.part_of 1 3 ≡ false))
transitive_closure_iff_example =
    transitive_closure_iff sample (validate_structure_iff_example.0 sample_valid) 1 3
