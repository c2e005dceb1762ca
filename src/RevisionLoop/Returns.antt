-- ===== src/RevisionLoop/Returns.antt =====
-- On rows of the unit interval no engine raises in a pass of core/revision_loop.py, so that the loop
-- under its default policy returns, and settles.
use iknos.Prelude.{
  ℕ, suc, ◌<◌, ◌≡◌, ◌↔◌, refl, inl, inr, true, false, Option, some, List, [], ◌∷◌, map, Each,
  length, contains, minus, some_inv, ◌==◌, Bool-cases, Option-cases, arith, sorted,
}
use iknos.TruthMaintenance.Graph.{NodeId}
use iknos.TruthMaintenance.Recompute.{well_founded_support}
use iknos.ComposedLoop.{StabilizationResult, converged}
use iknos.Confidence.{valuate}
use iknos.Confidence.Laws.{Laws}
use iknos.Confidence.Least.{table}
use iknos.Confidence.Closed.{Closed, valuate-Closed}
use iknos.Qbaf.Unital.{Unital, InUnit}
use iknos.DerivationAdapter.{
  NodeRow, DerivedRow, ActiveSubgraph, row_of, is_active, group_rows, call_of, assemble_subgraph,
  support_and_confidence,
}
use iknos.DerivationAdapter.Strengths.{
  Each-row_of, Each-group_rows, Each-active_groups, Each-strength_of,
}
use iknos.QbafAdapter.Returns.{ReadsUnit, RowIn, NodeIn, adjudicate_returns}
use iknos.RevisionLoop.{
  Engines, RevisionPlan, RevisionSnapshot, active_rows, value_in, scored_row, base_score,
  derivation_governed, adjudicate_at, run,
}
use iknos.RevisionLoop.Converge.{raises, rests, Held, by_default, run_converges}
use iknos.RevisionLoop.Passes.{refuted_by_gate}

-- engines whose degrees and strengths are those of the unit interval
pub record UnitEngines {V : Type 0} (engines : Engines V) : Type 0 where
  pub laws : Laws engines.degrees.semiring
  pub exact : (a b : V) → (engines.degrees.same a b ≡ true) ↔ (a ≡ b)
  pub closed : Closed (InUnit engines.reading.strengths) engines.degrees.semiring
  pub unital : Unital engines.reading.strengths engines.semantics
  pub reads : ReadsUnit engines.reading

pub record UnitRows {V : Type 0} (engines : Engines V) (plan : RevisionPlan V) : Type 0 where
  pub nodes_in : Each (NodeIn engines.reading) plan.nodes
  pub derived_in :
      Each (λ (row : DerivedRow V). InUnit engines.reading.strengths row.strength) plan.derived
  pub edges_in : Each (RowIn engines.reading) plan.edges

-- a run that has settled on what it retracts
pub record Settled {V : Type 0} (engines : Engines V) (plan : RevisionPlan V) : Type 0 where
  pub result : StabilizationResult (Option (List NodeId))
  pub final : RevisionSnapshot V
  pub returned : run engines (by_default engines plan) ≡ some (result, final)
  pub converges : result.status ≡ converged
  pub retracts : Held engines plan final.retracted
  pub clear : (x : NodeId) → refuted_by_gate final.verdicts final.decisions x ≡ false

Each-active_rows :
    {V : Type 0} (Q : NodeRow V → Type 0) (retracted : List NodeId) (rows : List (NodeRow V))
    → Each Q rows
    → Each Q (active_rows retracted rows)
unfolding active_rows
Each-active_rows Q retracted [] ps = ps
Each-active_rows Q retracted (n ∷ rows) ps = elim (Bool-cases (contains retracted n.id)) [
  | inl gone ↦ rw (gone, active_rows) (Each-active_rows Q retracted rows ps.1)
  | inr kept ↦ rw (kept, active_rows) (ps.0, Each-active_rows Q retracted rows ps.1)
]

value_in-map :
    {V : Type 0} (conf : NodeId → V) (ids : List NodeId) (nid : NodeId) (v : V)
    → value_in (map (λ n. (n, conf n)) ids) nid ≡ some v
    → conf nid ≡ v
value_in-map conf [] nid v e = cc
value_in-map conf (a ∷ ids) nid v e = elim (Bool-cases (a == nid)) [
  | inl at_a ↦ let same : conf a ≡ v = some_inv (rw (at_a, value_in) at e) in ground arith
  | inr other ↦ value_in-map conf ids nid v (rw (other, value_in) at e)
]

module _ {V : Type 0} (engines : Engines V) (good : UnitEngines engines) where
  open engines use {degrees, reading, semantics}

  support_and_confidence-valuate :
      (subgraph : ActiveSubgraph V) (values : List (NodeId × V))
      → valuate (call_of degrees subgraph (well_founded_support subgraph.graph)) ≡ some values
      → support_and_confidence degrees subgraph ≡ some (well_founded_support subgraph.graph, values)
  unfolding support_and_confidence
  support_and_confidence-valuate subgraph values e = rw (e, support_and_confidence) refl

  support_and_confidence_returns :
      (nodes : List (NodeRow V)) (facts : List NodeId) (derived : List (DerivedRow V))
      (boxes : Option (List ℕ))
      → Each (NodeIn reading) nodes
      → Each (λ (row : DerivedRow V). InUnit reading.strengths row.strength) derived
      → (supported : List NodeId) × (ids : List NodeId) × (conf : NodeId → V)
        × (support_and_confidence degrees (assemble_subgraph degrees nodes facts derived boxes)
            ≡ some (supported, map (λ n. (n, conf n)) ids))
        × ((n : NodeId) → InUnit reading.strengths (conf n))
  unfolding assemble_subgraph
  support_and_confidence_returns nodes facts derived boxes nodes_in derived_in =
      let subgraph = assemble_subgraph degrees nodes facts derived boxes in
      let supported = well_founded_support subgraph.graph in
      let call = call_of degrees subgraph supported in
      let groups_in =
        Each-active_groups (InUnit reading.strengths) degrees (is_active nodes boxes)
          (group_rows degrees derived [])
          (Each-group_rows (InUnit reading.strengths) degrees derived [] derived_in (record {})) in
      let (conf, e, all_in) =
        valuate-Closed (InUnit reading.strengths) call good.closed
          (λ n v known. elim (Bool-cases (contains subgraph.graph.base_facts n)) [
            | inl is_fact ↦ elim (Option-cases (row_of nodes n)) [
              | inl missing ↦ absurd (let h = rw (is_fact, missing) at known in cc)
              | inr (r, found) ↦
                  let same : r.confidence ≡ v = some_inv (rw (is_fact, found) at known) in
                  rw same at (Each-row_of (NodeIn reading) nodes n r nodes_in found)
            ]
            | inr not_fact ↦ absurd (let h = rw not_fact at known in cc)
          ])
          (λ d v known. Each-strength_of (InUnit reading.strengths) degrees _ d v groups_in known)
          good.laws good.exact in
      (
        supported,
        sorted supported,
        conf,
        support_and_confidence-valuate subgraph (table call conf) e,
        all_in,
      )

  module _ (plan : RevisionPlan V) (unit_rows : UnitRows engines plan) where
    scored_in :
        (conf : NodeId → V) (ids : List NodeId)
        → ((n : NodeId) → InUnit reading.strengths (conf n))
        → (n : NodeRow V) → NodeIn reading n
        → NodeIn reading (scored_row engines plan (map (λ k. (k, conf k)) ids) n)
    scored_in conf ids all_in n p =
        elim (Option-cases (value_in (map (λ k. (k, conf k)) ids) n.id)) [
          | inr (v, found) ↦
              let same : conf n.id ≡ v = value_in-map conf ids n.id v found in
              rw (found, base_score) (rw same at (all_in n.id))
          | inl missing ↦ elim (Bool-cases (derivation_governed engines plan n.id)) [
            | inl governed ↦ rw (missing, base_score, governed) good.unital.nothing_in
            | inr free ↦ rw (missing, base_score, free) p
          ]
        ]

    Each-scored_row :
        (conf : NodeId → V) (ids : List NodeId)
        → ((n : NodeId) → InUnit reading.strengths (conf n))
        → (rows : List (NodeRow V)) → Each (NodeIn reading) rows
        → Each (NodeIn reading) (map (scored_row engines plan (map (λ k. (k, conf k)) ids)) rows)
    Each-scored_row conf ids all_in [] ps = ps
    Each-scored_row conf ids all_in (n ∷ rows) ps =
        (scored_in conf ids all_in n ps.0, Each-scored_row conf ids all_in rows ps.1)

    pub adjudicate_at_returns :
        (retracted : List NodeId)
        → (snap : RevisionSnapshot V) × (adjudicate_at engines plan retracted ≡ some snap)
    unfolding adjudicate_at
    adjudicate_at_returns retracted =
        let active = active_rows retracted plan.nodes in
        let active_in = Each-active_rows (NodeIn reading) retracted plan.nodes unit_rows.nodes_in in
        let (supported, ids, conf, certified, all_in) =
          support_and_confidence_returns active (minus plan.base_fact_ids retracted) plan.derived
            (some plan.box_ids) active_in unit_rows.derived_in in
        let confidence = map (λ n. (n, conf n)) ids in
        let (result, made) =
          adjudicate_returns reading good.reads semantics good.unital
            (map (scored_row engines plan confidence) active) plan.edges (some plan.box_ids)
            (minus plan.hypothesis_ids retracted) (Each-scored_row conf ids all_in active active_in)
            unit_rows.edges_in in
        let snap : RevisionSnapshot V = record {
          retracted = retracted;
          verdicts = result.verdicts;
          decisions = plan.decide result.verdicts;
          confidence = confidence;
          qbaf_converged = result.converged;
          qbaf_unstable = result.unstable;
        } in
        (snap, rw (certified, made) refl)

  -- A run under the default policy returns and converges, whatever the gate decides, when the engines
  -- stay on the unit interval, the confidences and strengths of the rows are in it, and there are
  -- more iterations than hypotheses and one. It has retracted hypotheses only, each refuted in some
  -- pass with the gate's authority, and the final pass leaves no authorised refutation.
  pub run_settles :
      (plan : RevisionPlan V)
      → UnitRows engines plan
      → suc (length plan.hypothesis_ids) < plan.max_iterations
      → Settled engines plan
  run_settles plan unit_rows more = elim (run_converges engines plan more) [
    | raises q none_at ↦
        let (snap, found) =
          adjudicate_at_returns (by_default engines plan)
            record {
              nodes_in = unit_rows.nodes_in;
              derived_in = unit_rows.derived_in;
              edges_in = unit_rows.edges_in;
            }
            q in
        absurd cc
    | rests result final returned converges retracts clear ↦ record {
      result = result;
      final = final;
      returned = returned;
      converges = converges;
      retracts = retracts;
      clear = clear;
    }
  ]
