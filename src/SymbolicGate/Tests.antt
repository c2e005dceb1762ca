-- ===== src/SymbolicGate/Tests.antt =====
-- The symbolic channel with a solver that computes the least model, and the theorems at it.
use iknos.Prelude.{◌≡◌, refl, ◌↔◌, true, false, none, some, List, [], ◌∷◌, ◌++◌, all, any}
use iknos.TruthMaintenance.Entries.{ids_using, head_of}
use iknos.TruthMaintenance.Front.{expand, revisit}
use iknos.TruthMaintenance.Recompute.{well_founded_support}
use iknos.EnsembleGate.{SignedJudgment, refutes, default_gate, authorised, GateDecision}
use iknos.EnsembleGate.Panel.{authorise_from_panel}
use iknos.EnsembleGate.Panel.Verdict.{refuted_by}
use iknos.SymbolicGate.{
  Atom, SymbolicQuery, contradictory, consistent, encode, check_consistency, symbolic_channel_for,
}
use iknos.SymbolicGate.Interning.{mentions}
use iknos.SymbolicGate.Conflicts.{Clash, Conflict}
use iknos.SymbolicGate.Verdict.{check_consistency_iff, authorised-Clash}
use iknos.SymbolicGate.Verdict.Solver.{least_model_solver, least_model_solver-Answers}

abbrev claim : Atom
claim = record { key = 7; positive = true }

abbrev denial : Atom
denial = record { key = 7; positive = false }

abbrev fact : Atom
fact = record { key = 3; positive = true }

-- the hypothesis claims 7, a rule derives the denial from 3, and the refuter asserts 3
abbrev query : SymbolicQuery
query = record {
  hypothesis = claim ∷ [];
  refuter = fact ∷ [];
  context = [];
  rules = record { head = denial; body = fact ∷ [] } ∷ [];
}

query_contradictory : check_consistency least_model_solver query ≡ contradictory
unfolding check_consistency all well_founded_support expand ids_using revisit head_of
query_contradictory = refl

abbrev panel : List SignedJudgment
panel =
    record { sign = refutes; hypothesis = 9; evidence = 4; strength = 7; sign_stable = true } ∷ []

flip :
    (d : GateDecision) × (authorise_from_panel panel
        (some 9)
        (some (symbolic_channel_for least_model_solver query))
        none
        default_gate
      ≡ some d)
    × (d.outcome ≡ authorised)
unfolding authorise_from_panel symbolic_channel_for check_consistency all well_founded_support
    expand ids_using revisit head_of
flip = (_, refl, refl)

check_consistency_iff_example :
    ((check_consistency least_model_solver query ≡ contradictory) ↔ (
      (¬ Conflict (claim ∷ []) query.rules)
      × (any (λ a. mentions query a.key) query.refuter ≡ true)
      × Conflict (claim ∷ fact ∷ []) query.rules))
    × ((check_consistency least_model_solver query ≡ consistent) ↔ (
        (¬ Conflict (claim ∷ []) query.rules)
        × (any (λ a. mentions query a.key) query.refuter ≡ true)
        × (¬ Conflict (claim ∷ fact ∷ []) query.rules)))
check_consistency_iff_example =
    check_consistency_iff least_model_solver least_model_solver-Answers query

authorised-Clash_example :
    (refuted_by (some 9) panel ≡ true)
    × (¬ Clash (encode query).base_lits (encode query).rule_lits)
    × Clash ((encode query).base_lits ++ (encode query).refuter_lits) (encode query).rule_lits
authorised-Clash_example =
    authorised-Clash least_model_solver least_model_solver-Answers query panel (some 9) none tt
      flip.0 flip.1 flip.2
