-- ===== src/RevisionLoop.antt =====
-- core/revision_loop.py: the loop from adjudication to retraction and back, the default policies, and
-- what a run commits. The reads of the database and its audit log are not modelled.
pub mod Passes
pub mod Converge
pub mod Commit
pub mod Returns
mod Tests
use iknos.Prelude.{
  ℕ, zero, suc, ◌≡◌, ◌↔◌, refl, ap, Bool, true, false, not, ◌&&◌, ◌||◌, Option, none, some, List,
  [], ◌∷◌, ◌++◌, map, any, contains, minus, keep, sorted, ◌==◌, if◌then◌else◌, ◌>>=◌, arith,
}
use iknos.TruthMaintenance.Graph.{NodeId}
use iknos.ComposedLoop.{
  Stability, converged, has_converged, StabilizationResult, Hashable, stabilize,
}
use iknos.EnsembleGate.{GateDecision}
use iknos.Qbaf.{GradualSemantics}
use iknos.DerivationAdapter.{
  NodeRow, DerivedRow, Degrees, ActiveSubgraph, assemble_subgraph, support_and_confidence,
}
use iknos.QbafAdapter.{
  EvidenceRow, HypothesisVerdict, AdjudicationResult, Reading, assemble_baf, adjudicate, is_refuted,
  decision_authorises, Store, PersistResult, persist_verdicts,
}

-- `default_max_iterations` of the source
abbrev pub default_max_iterations : ℕ
default_max_iterations = 50

abbrev pub GateDecisions : Type 0
GateDecisions = NodeId → Option GateDecision

pub record RevisionSnapshot (V : Type 0) : Type 0 where
  pub retracted : List NodeId
  pub verdicts : List (HypothesisVerdict V)
  pub decisions : GateDecisions
  pub confidence : List (NodeId × V)
  pub qbaf_converged : Bool
  pub qbaf_unstable : List NodeId

pub record RevisionPlan (V : Type 0) : Type 0 where
  pub nodes : List (NodeRow V)
  pub base_fact_ids : List NodeId
  pub derived : List (DerivedRow V)
  pub edges : List (EvidenceRow V)
  pub box_ids : List ℕ
  pub hypothesis_ids : List NodeId
  pub decide : List (HypothesisVerdict V) → GateDecisions
  pub revise : List (HypothesisVerdict V) → GateDecisions → List NodeId → List NodeId
  pub max_iterations : ℕ

module _ {V : Type 0} where
  abbrev pub no_decisions : List (HypothesisVerdict V) → GateDecisions
  no_decisions verdicts hid = none

  unfoldable pub newly : List (HypothesisVerdict V) → GateDecisions → List NodeId
  newly [] decisions = []
  newly (v ∷ vs) decisions =
      let rest = newly vs decisions in
      if is_refuted v.state && decision_authorises (decisions v.id) then v.id ∷ rest else rest

  unfoldable pub retract_authorised_refuted :
      List (HypothesisVerdict V) → GateDecisions → List NodeId → List NodeId
  retract_authorised_refuted verdicts decisions retracted = retracted ++ newly verdicts decisions

  abbrev pub value_in : List (NodeId × V) → NodeId → Option V
  value_in [] nid = none
  value_in ((n, v) ∷ values) nid = if n == nid then some v else value_in values nid

  -- the rows that are not retracted
  unfoldable pub active_rows : List NodeId → List (NodeRow V) → List (NodeRow V)
  active_rows retracted [] = []
  active_rows retracted (n ∷ ns) =
      let rest = active_rows retracted ns in if contains retracted n.id then rest else n ∷ rest

-- the engines that the loop composes, with the arithmetic of degrees and of strengths
pub record Engines (V : Type 0) : Type 0 where
  pub degrees : Degrees V
  pub reading : Reading V
  pub semantics : GradualSemantics V

-- A set of ids is the sorted list of its elements, so that equal sets are equal.
abbrev pub same_ids : List NodeId → List NodeId → Bool
same_ids [] [] = true
same_ids (a ∷ as_one) (b ∷ bs) = a == b && same_ids as_one bs
same_ids _ _ = false

same_ids_iff : (a b : List NodeId) → (same_ids a b ≡ true) ↔ (a ≡ b)
same_ids_iff [] [] = (λ e. refl, λ e. refl)
same_ids_iff [] (b ∷ bs) = (λ e. cc, λ e. cc)
same_ids_iff (a ∷ xs) [] = (λ e. cc, λ e. cc)
same_ids_iff (a ∷ xs) (b ∷ bs) = ground (arith, same_ids_iff xs bs)

abbrev pub same_state : Option (List NodeId) → Option (List NodeId) → Bool
same_state none none = true
same_state (some a) (some b) = same_ids a b
same_state _ _ = false

pub same_state_iff : (a b : Option (List NodeId)) → (same_state a b ≡ true) ↔ (a ≡ b)
same_state_iff none none = (λ e. refl, λ e. refl)
same_state_iff none (some b) = (λ e. cc, λ e. cc)
same_state_iff (some a) none = (λ e. cc, λ e. cc)
same_state_iff (some a) (some b) = ground (arith, same_ids_iff a b)

abbrev pub states : Hashable (Option (List NodeId))
states = record { same = same_state; same_iff = same_state_iff }

module _ {V : Type 0} (engines : Engines V) (plan : RevisionPlan V) where
  open engines use {degrees, reading, semantics}
  open plan use {
    nodes, base_fact_ids, derived, edges, box_ids, hypothesis_ids, decide, revise, max_iterations,
  }

  -- `nid in self._derivation_governed()`
  abbrev pub derivation_governed : NodeId → Bool
  derivation_governed nid = contains base_fact_ids nid || any (λ d. d.conclusion == nid) derived

  abbrev pub base_score : List (NodeId × V) → NodeRow V → V
  base_score confidence n = elim (value_in confidence n.id) [
    | some v ↦ v
    | none ↦ if derivation_governed n.id then reading.strengths.nothing else n.confidence
  ]

  abbrev pub scored_row : List (NodeId × V) → NodeRow V → NodeRow V
  scored_row confidence n = record { id = n.id; box = n.box; confidence = base_score confidence n }

  -- `none` is an exception of one of the engines
  unfoldable pub adjudicate_at : List NodeId → Option (RevisionSnapshot V)
  adjudicate_at retracted =
      let active = active_rows retracted nodes in
      let subgraph =
        assemble_subgraph degrees active (minus base_fact_ids retracted) derived (some box_ids) in
      do
        certified ← support_and_confidence degrees subgraph
        let confidence = certified.1
        let inp = assemble_baf reading (map (scored_row confidence) active) edges (some box_ids)
        result ← adjudicate reading semantics inp (minus hypothesis_ids retracted)
        some record {
          retracted = retracted;
          verdicts = result.verdicts;
          decisions = decide result.verdicts;
          confidence = confidence;
          qbaf_converged = result.converged;
          qbaf_unstable = result.unstable;
        }

  -- an exception of a step ends the loop: it is carried as the state `none`
  unfoldable pub step : Option (List NodeId) → Option (List NodeId)
  step none = none
  step (some retracted) = do
    snap ← adjudicate_at retracted
    some (sorted (revise snap.verdicts snap.decisions retracted))

  unfoldable pub run : Option (StabilizationResult (Option (List NodeId)) × RevisionSnapshot V)
  run = do
    result ← stabilize states step (λ s. s) (some []) max_iterations
    retracted ← result.state
    final ← adjudicate_at retracted
    some (result, final)

-- the current nodes of the database: their hypotheses, and the confidence of each
pub record Database (V : Type 0) : Type 0 where
  pub hypotheses : Store V
  pub current : NodeId → Bool
  pub confidence : NodeId → V

module _ {V : Type 0} where
  -- `SET n.valid_to`: the node is not current from then on
  abbrev pub retired_one : NodeId → Database V → Database V
  retired_one nid db = record {
    hypotheses = λ k. if nid == k then none else db.hypotheses k;
    current = λ k. if nid == k then false else db.current k;
    confidence = db.confidence;
  }

  unfoldable pub retire : List NodeId → Database V → Database V
  retire [] db = db
  retire (nid ∷ nids) db = retire nids (retired_one nid db)

  -- `SET n.confidence`, on a current node
  abbrev pub set_confidence : (NodeId → V) → NodeId → Database V → Database V
  set_confidence conf nid db = record {
    hypotheses = db.hypotheses;
    current = db.current;
    confidence = λ k. if nid == k && db.current k then conf k else db.confidence k;
  }

  unfoldable pub write_back : (NodeId → V) → List NodeId → Database V → Database V
  write_back conf [] db = db
  write_back conf (nid ∷ nids) db = write_back conf nids (set_confidence conf nid db)

pub record RevisionResult (V : Type 0) : Type 0 where
  pub stabilization : StabilizationResult (Option (List NodeId))
  pub final : RevisionSnapshot V
  pub persisted : Option PersistResult
  pub retracted : List NodeId

module _ {V : Type 0} (engines : Engines V) (plan : RevisionPlan V) where
  abbrev pub active_governed : List NodeId → List NodeId
  active_governed retracted = sorted (
      keep (derivation_governed engines plan)
        (map (λ (n : NodeRow V). n.id) (active_rows retracted plan.nodes)))

  abbrev pub written_confidence : RevisionSnapshot V → NodeId → V
  written_confidence final nid = elim (value_in final.confidence nid) [
    | some v ↦ v
    | none ↦ engines.reading.strengths.nothing
  ]

  -- `_persist`
  unfoldable pub persist : RevisionSnapshot V → Database V → Database V × PersistResult
  persist final db =
      let (hypotheses, report) = persist_verdicts final.decisions final.verdicts db.hypotheses in
      (
        write_back (written_confidence final) (active_governed final.retracted) (
            retire (sorted final.retracted)
              record { hypotheses = hypotheses; current = db.current; confidence = db.confidence }),
        report,
      )

  -- `RevisionLoop.run`, after its reads
  unfoldable pub commit_run : Bool → Database V → Option (Database V × RevisionResult V)
  commit_run persisting db = do
    outcome ← run engines plan
    let (result, final) = outcome
    let (after, report) = persist final db
    some (
        if has_converged result.status && persisting
        then (
          after,
          record {
            stabilization = result;
            final = final;
            persisted = some report;
            retracted = final.retracted;
          },
        )
        else (
          db,
          record { stabilization = result; final = final; persisted = none; retracted = [] },
        ))
