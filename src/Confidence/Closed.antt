-- ===== src/Confidence/Closed.antt =====
-- `valuate` of core/confidence.py stays among the degrees that a predicate tells, where the
-- operations of the semiring and the inputs do.
use iknos.Prelude.{
  ℕ, zero, suc, ◌≡◌, ◌↔◌, refl, true, some, none, Option, List, [], ◌∷◌, map, contains, distinct,
  Each, Bool-cases, inl, inr,
}
use iknos.TruthMaintenance.Graph.{NodeId, Derivation}
use iknos.Confidence.{
  Semiring, Valuation, get_or, folded, grounds, worth, contributions, valued, valuate,
}
use iknos.Confidence.Laws.{Laws}
use iknos.Confidence.Ascent.{after}
use iknos.Confidence.Least.{table, valuate-after}

module _ {V : Type 0} (P : V → Type 0) where
  pub record Closed (semiring : Semiring V) : Type 0 where
    pub zero_in : P semiring.zero
    pub one_in : P semiring.one
    pub times_in : (a b : V) → P a → P b → P (semiring.times a b)
    pub plus_in : (a b : V) → P a → P b → P (semiring.plus a b)

  folded_in :
      (op : V → V → V)
      → ((a b : V) → P a → P b → P (op a b))
      → (acc : V) (vs : List V) → P acc
      → Each P vs
      → P (folded op acc vs)
  folded_in op keeps acc [] p ps = p
  folded_in op keeps acc (v ∷ vs) p ps = folded_in op keeps (op acc v) vs (keeps acc v p ps.0) ps.1

  Each-map : {A : Type 0} (f : A → V) (xs : List A) → ((x : A) → P (f x)) → Each P (map f xs)
  Each-map f [] all_in = record {}
  Each-map f (x ∷ xs) all_in = (all_in x, Each-map f xs all_in)

  module _ (call : Valuation V) (closed : Closed call.semiring)
      (base_in : (n : NodeId) (v : V) → call.base_confidence n ≡ some v → P v)
      (strength_in : (d : Derivation) (v : V) → call.strength d ≡ some v → P v) where
    get_or_one : (o : Option V) → ((v : V) → o ≡ some v → P v) → P (get_or call.semiring.one o)
    get_or_one none known = closed.one_in
    get_or_one (some v) known = known v refl

    valued_in : (f : NodeId → V) → ((n : NodeId) → P (f n)) → (n : NodeId) → P (valued call f n)
    unfolding valued contributions
    valued_in f all_in n =
        let worths = Each-map (worth call f) (grounds call n call.graph.derivations) (λ d.
          closed.times_in _ _ (get_or_one (call.strength d) (strength_in d)) (
            folded_in call.semiring.times closed.times_in call.semiring.one _ closed.one_in
              (Each-map f (distinct d.body) all_in))) in
        folded_in call.semiring.plus closed.plus_in call.semiring.zero (contributions call f n)
          closed.zero_in
          (elim (Bool-cases (contains call.graph.base_facts n)) [
            | inl is_fact ↦
                rw (is_fact, contributions)
                  (get_or_one (call.base_confidence n) (base_in n), worths)
            | inr not_fact ↦ rw (not_fact, contributions) worths
          ])

    module _ (laws : Laws call.semiring)
        (exact : (a b : V) → (call.same a b ≡ true) ↔ (a ≡ b)) where
      after_in : (k : ℕ) (n : NodeId) → P (after call laws exact k n)
      unfolding after
      after_in zero n = closed.zero_in
      after_in (suc k) n = valued_in (after call laws exact k) (after_in k) n

      pub valuate-Closed :
          (conf : NodeId → V) × (valuate call ≡ some (table call conf))
          × ((n : NodeId) → P (conf n))
      valuate-Closed =
          let (k, e, _) = valuate-after call laws exact in (after call laws exact k, e, after_in k)
