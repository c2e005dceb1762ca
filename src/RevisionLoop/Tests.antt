-- ===== src/RevisionLoop/Tests.antt =====
-- A run that retracts a refuted hypothesis, and the theorems at it.
use iknos.Prelude.{
  ℕ, ◌+◌, ◌-◌, ◌≡◌, refl, true, Option, none, some, List, [], ◌∷◌, min, max, unit, leb, ltb, Each,
  ==_iff, ◌==◌, pos, contains, distinct, sorted, insertion_sort, insert_sorted, keep, minus, all,
  arith,
}
use iknos.TruthMaintenance.Graph.{NodeId}
use iknos.ComposedLoop.{converged, StabilizationResult, stabilize, iterate_loop, lookup}
use iknos.Confidence.{godel}
use iknos.Confidence.Godel.{godel-Laws}
use iknos.EnsembleGate.{refutes, authorised}
use iknos.DerivationAdapter.{NodeRow}
use iknos.QbafAdapter.{HypothesisVerdict}
use iknos.RevisionLoop.{
  adjudicate_at, active_rows, newly, step, states, GateDecisions, Engines, RevisionPlan,
  RevisionSnapshot, RevisionResult, Database, retract_authorised_refuted, persist, run, commit_run,
}
use iknos.Confidence.{valuate, rounds, contributions, grounds, stable, valued}
use iknos.TruthMaintenance.Recompute.{
  well_founded_support, enough, initial, mark_axioms, mark_facts, seeded,
}
use iknos.DerivationAdapter.{
  assemble_subgraph, support_and_confidence, is_active, row_of, active_groups, add_row, group_rows,
  strength_of,
}
use iknos.TruthMaintenance.Incremental.Insertion.{
  sort_derivs, deriv_sort_key, insert_deriv, lex_leb,
}
use iknos.Intentional.{band, first_band}
use iknos.Qbaf.{aggregate_evidence, classify_state, incoming, solve, solve_loop, sweep}
use iknos.QbafAdapter.{
  adjudicate, assemble_baf, edge_leb, insert_edge, routed, sort_edges, verdicts_on,
}
use iknos.TruthMaintenance.Entries.{enumerate, find, head_of, ids_using}
use iknos.TruthMaintenance.Front.{expand, mark, propagate, revisit, revisit_all, update}
use iknos.TruthMaintenance.Graph.{same_deriv}
use iknos.Intentional.{band_false, refuted}
use iknos.RevisionLoop.Returns.{UnitEngines, UnitRows, Settled, run_settles}
use iknos.RevisionLoop.Commit.{Ran, commit_run-Ran}

abbrev largest : List ℕ → ℕ
largest [] = 0
largest (x ∷ xs) = max x (largest xs)

abbrev engines : Engines ℕ
engines = record {
  degrees = record { semiring = godel; same = ◌==◌; lesser = ltb };
  reading = record {
    strengths = record { nothing = 0; times = min; in_unit = λ x. leb x unit; close = ◌==◌ };
    millionths = pos;
    less = ltb;
  };
  semantics = record {
    aggregate = largest;
    combine = λ base for against. min unit (base + for) - against;
  };
}

abbrev row : NodeId → ℕ → NodeRow ℕ
row nid confidence = record { id = nid; box = some 0; confidence = confidence }

abbrev yes_to_all : List (HypothesisVerdict ℕ) → GateDecisions
yes_to_all verdicts hid = some record { outcome = authorised; signals = []; reasons = [] }

-- the fact 2 refutes the hypothesis 9
abbrev plan : RevisionPlan ℕ
plan = record {
  nodes = row 1 900000 ∷ row 2 900000 ∷ row 9 300000 ∷ [];
  base_fact_ids = 1 ∷ 2 ∷ [];
  derived = [];
  edges = record { source = 2; target = 9; sign = refutes; strength = 900000 } ∷ [];
  box_ids = 0 ∷ [];
  hypothesis_ids = 9 ∷ [];
  decide = yes_to_all;
  revise = retract_authorised_refuted;
  max_iterations = 3;
}

abbrev empty_graph : RevisionPlan ℕ
empty_graph = record plan { nodes = []; base_fact_ids = []; edges = []; hypothesis_ids = [] }

largest-Each : (vs : List ℕ) → Each (λ v. leb v unit ≡ true) vs → leb (largest vs) unit ≡ true
largest-Each [] ps = refl
largest-Each (v ∷ vs) ps = let h = largest-Each vs ps.1 in let k = ps.0 in ground arith

engines-UnitEngines : UnitEngines engines
engines-UnitEngines = record {
  laws = godel-Laws;
  exact = ==_iff;
  closed = record {
    zero_in = refl;
    one_in = refl;
    times_in = λ a b p q. ground arith;
    plus_in = λ a b p q. ground arith;
  };
  unital = record {
    nothing_in = refl;
    times_in = λ a b p q. ground arith;
    aggregate_in = largest-Each;
    combine_in = λ a b c p q r. ground arith;
  };
  reads = record { at_most_unit = λ v p. (v, refl, ground arith) };
}

plan-UnitRows : UnitRows engines plan
plan-UnitRows = record {
  nodes_in = (refl, (refl, (refl, record {})));
  derived_in = record {};
  edges_in = (refl, record {});
}

run_settles_example : Settled engines plan
run_settles_example = run_settles engines engines-UnitEngines plan plan-UnitRows (omega arith)

-- the hypothesis 9 is retracted in the first pass, and the second changes nothing
abbrev outcome : StabilizationResult (Option (List NodeId))
outcome = record {
  status = converged;
  state = some (9 ∷ []);
  iterations = 2;
  trajectory = some [] ∷ some (9 ∷ []) ∷ [];
  cycle = [];
}

abbrev last_pass : RevisionSnapshot ℕ
last_pass = record {
  retracted = 9 ∷ [];
  verdicts = [];
  decisions = yes_to_all [];
  confidence = (1, 900000) ∷ (2, 900000) ∷ [];
  qbaf_converged = true;
  qbaf_unstable = [];
}

abbrev database : Database ℕ
database = record {
  hypotheses = λ k. none;
  current = λ k. contains (1 ∷ 2 ∷ 9 ∷ []) k;
  confidence = λ k. 500000;
}

abbrev first_pass : RevisionSnapshot ℕ
first_pass = record {
  retracted = [];
  verdicts = record { id = 9; acceptability = 0; presented = band_false; state = refuted } ∷ [];
  decisions = yes_to_all [];
  confidence = (1, 900000) ∷ (2, 900000) ∷ [];
  qbaf_converged = true;
  qbaf_unstable = [];
}

pass_first : adjudicate_at engines plan [] ≡ some first_pass
unfolding valuate rounds contributions grounds stable valued well_founded_support enough initial
    mark_axioms mark_facts seeded assemble_subgraph support_and_confidence is_active row_of
    active_groups add_row group_rows strength_of sort_derivs deriv_sort_key insert_deriv lex_leb
    band first_band aggregate_evidence classify_state incoming solve solve_loop sweep adjudicate
    assemble_baf edge_leb insert_edge routed sort_edges verdicts_on enumerate find head_of ids_using
    expand mark propagate revisit revisit_all update same_deriv adjudicate_at active_rows keep minus
    contains all distinct insert_sorted insertion_sort sorted
pass_first = refl

pass_last : adjudicate_at engines plan (9 ∷ []) ≡ some last_pass
unfolding valuate rounds contributions grounds stable valued well_founded_support enough initial
    mark_axioms mark_facts seeded assemble_subgraph support_and_confidence is_active row_of
    active_groups add_row group_rows strength_of sort_derivs deriv_sort_key insert_deriv lex_leb
    band first_band aggregate_evidence classify_state incoming solve solve_loop sweep adjudicate
    assemble_baf edge_leb insert_edge routed sort_edges verdicts_on enumerate find head_of ids_using
    expand mark propagate revisit revisit_all update same_deriv adjudicate_at active_rows keep minus
    contains all distinct insert_sorted insertion_sort sorted
pass_last = refl

step_first : step engines plan (some []) ≡ some (9 ∷ [])
unfolding step newly retract_authorised_refuted sorted distinct insertion_sort insert_sorted
    contains
step_first = rw pass_first refl

step_last : step engines plan (some (9 ∷ [])) ≡ some (9 ∷ [])
unfolding step newly retract_authorised_refuted sorted distinct insertion_sort insert_sorted
    contains
step_last = rw pass_last refl

settles_second :
    (f : Option (List NodeId) → Option (List NodeId))
    → f (some []) ≡ some (9 ∷ [])
    → f (some (9 ∷ [])) ≡ some (9 ∷ [])
    → stabilize states f (λ s. s) (some []) 3 ≡ some outcome
unfolding stabilize iterate_loop lookup
settles_second f first second = ground arith

loop_plan : stabilize states (step engines plan) (λ s. s) (some []) 3 ≡ some outcome
loop_plan = settles_second (step engines plan) step_first step_last

run-plan : run engines plan ≡ some (outcome, last_pass)
unfolding run
run-plan = rw (loop_plan, pass_last) refl

abbrev committed : RevisionResult ℕ
committed = record {
  stabilization = outcome;
  final = last_pass;
  persisted = some (persist engines plan last_pass database).1;
  retracted = 9 ∷ [];
}

commits_plan :
    commit_run engines plan true database
    ≡ some ((persist engines plan last_pass database).0, committed)
unfolding commit_run
commits_plan = rw run-plan refl

commit_run-Ran_example :
    Ran engines plan true database (persist engines plan last_pass database).0 committed
commit_run-Ran_example =
    commit_run-Ran engines plan true database (persist engines plan last_pass database).0 committed
      commits_plan
