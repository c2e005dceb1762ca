-- ===== src/TruthMaintenance/Recompute/Cycles.antt =====
-- Cycles in the recompute: support that rests on itself alone is none.
use iknos.Prelude.{◌≡◌, Bool, true, false, inl, inr, arith, contains, Bool-cases}
use iknos.TruthMaintenance.Graph.{
  NodeId, Derivation, DerivationGraph, InRules, Supported, fact, derived,
}
use iknos.TruthMaintenance.Recompute.{well_founded_support}
use iknos.TruthMaintenance.Recompute.Correct.{well_founded_support-iff-Supported}

module _ (g : DerivationGraph) (inside : NodeId → Bool)
    (no_fact : (n : NodeId) → inside n ≡ true → contains g.base_facts n ≡ false)
    (rests : (d : Derivation)
      → InRules d g.derivations
      → inside d.conclusion ≡ true
      → (a : NodeId) × (contains d.body a ≡ true) × (inside a ≡ true)) where
  not_inside : {x : NodeId} → Supported (contains g.base_facts) g.derivations x → inside x ≡ false
  not_inside (fact {n = n} h) = elim (Bool-cases (inside n)) [
    | inl within ↦ ground (arith, no_fact n within)
    | inr outside ↦ outside
  ]
  not_inside (derived d m body) = elim (Bool-cases (inside d.conclusion)) [
    | inl within ↦
        let (a, used, also) = rests d m within in ground (arith, not_inside (body a used))
    | inr outside ↦ outside
  ]

  -- A set of nodes without a base fact, in which each rule for a node of the set has an antecedent
  -- in the set, has no supported node: a cycle of derivations that lost its ground is dropped.
  pub well_founded_support-unfounded :
      (x : NodeId) → inside x ≡ true → contains (well_founded_support g) x ≡ false
  well_founded_support-unfounded x within =
      elim (Bool-cases (contains (well_founded_support g) x)) [
        | inl supported ↦
            let out = not_inside ((well_founded_support-iff-Supported g x).0 supported) in
            ground (arith, out)
        | inr unsupported ↦ unsupported
      ]
