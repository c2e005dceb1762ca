-- ===== src/Confidence/Tests.antt =====
-- A run of the valuation on a grounded cycle, and the theorems at it.
use iknos.Prelude.{
  ℕ, ◌≤◌, ◌≡◌, ◌↔◌, refl, true, Option, none, some, List, [], ◌∷◌, contains, distinct, sorted, all,
  ◌==◌, if◌then◌else◌, ==_iff, arith,
}
use iknos.TruthMaintenance.Graph.{NodeId, Derivation, DerivationGraph}
use iknos.Confidence.{Valuation, grounds, contributions, valued, stable, rounds, valuate}
use iknos.Confidence.Least.{table, Solves, valuate-Solves}
use iknos.Confidence.Godel.{godel_call, godel-Laws, Carried, valuate-Carried}

-- 1 is evidenced; 2 follows from 1, and 2 and 3 from each other
abbrev looped : DerivationGraph
looped = record {
  base_facts = 1 ∷ [];
  derivations =
      record { conclusion = 2; body = 1 ∷ [] }
      ∷ record { conclusion = 3; body = 2 ∷ [] }
      ∷ record { conclusion = 2; body = 3 ∷ [] }
      ∷ [];
}

abbrev evidence : NodeId → Option ℕ
evidence n = if n == 1 then some 800000 else none

abbrev edge_strength : Derivation → Option ℕ
edge_strength d = if d.conclusion == 3 then some 600000 else none

abbrev certified : List NodeId
certified = 1 ∷ 2 ∷ 3 ∷ []

abbrev sample : Valuation ℕ
sample = godel_call looped certified evidence edge_strength

valuate-sample : valuate sample ≡ some ((1, 800000) ∷ (2, 800000) ∷ (3, 600000) ∷ [])
unfolding valuate rounds stable valued contributions grounds contains distinct sorted all
valuate-sample = refl

valuate-Solves_example :
    (conf : NodeId → ℕ) × (valuate sample ≡ some (table sample conf)) × Solves sample conf
valuate-Solves_example = valuate-Solves sample godel-Laws ==_iff

certified_three : contains certified 3 ≡ true
unfolding contains
certified_three = refl

abbrev half : ℕ
half = 500000

valuate-Carried_example :
    (conf : NodeId → ℕ) × (valuate sample ≡ some (table sample conf))
    × ((half ≤ conf 3) ↔ Carried looped certified evidence edge_strength half 3)
valuate-Carried_example =
    valuate-Carried looped certified evidence edge_strength half 3 (omega arith) (omega arith)
      certified_three
