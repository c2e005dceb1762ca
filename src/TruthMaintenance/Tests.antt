-- ===== src/TruthMaintenance/Tests.antt =====
-- Runs of the two oracles of core/truth_maintenance.py, and the theorems at them.
use iknos.Prelude.{
  ◌+◌, ◌≡◌, refl, ◌↔◌, Bool, true, false, ◌||◌, List, [], ◌∷◌, ◌++◌, arith, all, contains, one_if,
  ◌==◌,
}
use iknos.TruthMaintenance.Graph.{
  NodeId, Derivation, DerivationGraph, InRules, here, there, Supported,
}
use iknos.TruthMaintenance.Entries.{find, head_of, ids, rules}
use iknos.TruthMaintenance.Recompute.{well_founded_support}
use iknos.TruthMaintenance.Recompute.Correct.{well_founded_support-iff-Supported}
use iknos.TruthMaintenance.Recompute.Cycles.{well_founded_support-unfounded}
use iknos.TruthMaintenance.Incremental.State.{init, support_count, visit, visit_all}
use iknos.TruthMaintenance.Incremental.Stable.{Stable}
use iknos.TruthMaintenance.Incremental.Insertion.{insert}
use iknos.TruthMaintenance.Incremental.Insertion.Correct.{insert-Stable}
use iknos.TruthMaintenance.Incremental.Deletion.{delete}
use iknos.TruthMaintenance.Incremental.Deletion.Correct.{delete-Stable}
use iknos.TruthMaintenance.Incremental.Apply.{apply, apply_all}
use iknos.TruthMaintenance.Incremental.Apply.Correct.{apply-Stable, init-Stable}
use iknos.TruthMaintenance.Incremental.Apply.Sequence.{
  apply_all-recompute, groundings, support_count-exact,
}

abbrev rule : NodeId → List NodeId → Derivation
rule c b = record { conclusion = c; body = b }

-- 1 grounds the cycle 2 ⇄ 3, and 4 rests on it
abbrev cycle : List NodeId → DerivationGraph
cycle facts = record {
  base_facts = facts;
  derivations = rule 2 (1 ∷ []) ∷ rule 2 (3 ∷ []) ∷ rule 3 (2 ∷ []) ∷ rule 4 (2 ∷ 3 ∷ 3 ∷ []) ∷ [];
}

cycle_runs : (apply (cycle (1 ∷ 5 ∷ [])) init).live.front.supported ≡ 4 ∷ 3 ∷ 2 ∷ 5 ∷ 1 ∷ []
unfolding apply init contains all visit_all visit head_of
cycle_runs = refl

cycle_drops :
    (apply_all (cycle (1 ∷ 5 ∷ []) ∷ cycle (5 ∷ []) ∷ []) init).live.front.supported ≡ 5 ∷ []
unfolding apply_all init contains all visit_all visit head_of
cycle_drops = refl

apply_all-recompute_example :
    contains
      (apply_all ((cycle (1 ∷ 5 ∷ []) ∷ []) ++ cycle (5 ∷ []) ∷ []) init).live.front.supported
      4
    ≡ contains (well_founded_support (cycle (5 ∷ []))) 4
apply_all-recompute_example = apply_all-recompute (cycle (1 ∷ 5 ∷ []) ∷ []) (cycle (5 ∷ [])) 4

well_founded_support-iff-Supported_example :
    (contains (well_founded_support (cycle (1 ∷ []))) 4 ≡ true)
    ↔ Supported (contains (1 ∷ [])) (cycle (1 ∷ [])).derivations 4
well_founded_support-iff-Supported_example = well_founded_support-iff-Supported (cycle (1 ∷ [])) 4

support_count-exact_example :
    support_count (apply_all ([] ++ cycle (1 ∷ []) ∷ []) init) 2
    ≡ one_if (contains (1 ∷ []) 2)
      + groundings
          (contains (well_founded_support (cycle (1 ∷ []))))
          (rules (apply_all ([] ++ cycle (1 ∷ []) ∷ []) init).derivs)
          2
support_count-exact_example = support_count-exact [] (cycle (1 ∷ [])) 2

-- 2 and 3 rest on one another alone
abbrev loop : DerivationGraph
loop = record { base_facts = 5 ∷ []; derivations = rule 2 (3 ∷ []) ∷ rule 3 (2 ∷ []) ∷ [] }

abbrev on_loop : NodeId → Bool
on_loop n = n == 2 || n == 3

loop_facts : (n : NodeId) → on_loop n ≡ true → contains loop.base_facts n ≡ false
unfolding contains
loop_facts n h = ground arith

loop_rests :
    (d : Derivation)
    → InRules d loop.derivations
    → on_loop d.conclusion ≡ true
    → (a : NodeId) × (contains d.body a ≡ true) × (on_loop a ≡ true)
unfolding contains
loop_rests _ here h = (3, refl, refl)
loop_rests _ (there here) h = (2, refl, refl)
loop_rests _ (there (there m)) h = elim m [ ]

well_founded_support-unfounded_example : contains (well_founded_support loop) 2 ≡ false
well_founded_support-unfounded_example =
    well_founded_support-unfounded loop on_loop loop_facts loop_rests 2 refl

insert-Stable_example : Stable (insert (7 ∷ []) (rule 2 (7 ∷ []) ∷ []) init)
unfolding init contains
insert-Stable_example = insert-Stable (7 ∷ []) (rule 2 (7 ∷ []) ∷ []) init init-Stable (λ x h. refl)

delete-Stable_example : Stable (delete (1 ∷ []) [] (apply (cycle (1 ∷ [])) init))
unfolding ids find
delete-Stable_example =
    delete-Stable (1 ∷ []) [] (apply (cycle (1 ∷ [])) init)
      (apply-Stable (cycle (1 ∷ [])) init init-Stable) tt (λ j e h. cc)
