-- ===== src/QbafAdapter.antt =====
-- core/qbaf_adapter.py: the framework of the active graph, its adjudication, and the writer of the
-- verdicts. The hypothesis nodes of the database are a function of their id; its queries are not
-- modelled.
pub mod Persist
pub mod Returns
mod Tests
use iknos.Prelude.{
  ℕ, suc, Bool, true, false, not, ◌&&◌, Option, none, some, List, [], ◌∷◌, ◌++◌, map, contains,
  distinct, sorted, keep, ◌==◌, leb, ltb, if◌then◌else◌, ◌>>=◌, ℤ,
}
use iknos.TruthMaintenance.Graph.{NodeId}
use iknos.EnsembleGate.{EdgeSign, supports, refutes, GateDecision, outcome_authorised}
use iknos.Intentional.{HypothesisState, supported, unsupported, refuted, AcceptabilityBand, band}
use iknos.Qbaf.{
  Strengths, Edge, Baf, GradualSemantics, QbafResult, solve, aggregate_evidence, classify_state,
}
use iknos.DerivationAdapter.{NodeRow, row_of, is_active}

pub record EvidenceRow (V : Type 0) : Type 0 where
  pub source : NodeId
  pub target : NodeId
  pub sign : EdgeSign
  pub strength : V

pub record AdjudicationInput (V : Type 0) : Type 0 where
  pub baf : Baf V
  pub base : List (NodeId × V)

pub record HypothesisVerdict (V : Type 0) : Type 0 where
  pub id : NodeId
  pub acceptability : V
  pub presented : AcceptabilityBand
  pub state : HypothesisState

pub record AdjudicationResult (V : Type 0) : Type 0 where
  pub acceptability : NodeId → V
  pub verdicts : List (HypothesisVerdict V)
  pub converged : Bool
  pub unstable : List NodeId

-- what the adapter reads of a strength beside the arithmetic of the engine: the number of millionths
-- that the banding compares, and the test `<`
pub record Reading (V : Type 0) : Type 0 where
  pub strengths : Strengths V
  pub millionths : V → ℤ
  pub less : V → V → Bool

-- the bound of `solve`, by default
abbrev pub max_sweeps : ℕ
max_sweeps = 100

module _ {V : Type 0} (reading : Reading V) where
  -- `edge_key`
  unfoldable pub edge_leb : Edge V → Edge V → Bool
  edge_leb e f =
      if ltb e.src f.src
      then true
      else if e.src == f.src
      then if ltb e.dst f.dst
        then true
        else (e.dst == f.dst) && not (reading.less f.strength e.strength)
      else false

  unfoldable pub insert_edge : Edge V → List (Edge V) → List (Edge V)
  insert_edge e [] = e ∷ []
  insert_edge e (f ∷ fs) =
      let rest = insert_edge e fs in if edge_leb e f then e ∷ f ∷ fs else f ∷ rest

  unfoldable pub sort_edges : List (Edge V) → List (Edge V)
  sort_edges [] = []
  sort_edges (e ∷ es) = insert_edge e (sort_edges es)

  abbrev pub same_sign : EdgeSign → EdgeSign → Bool
  same_sign supports supports = true
  same_sign refutes refutes = true
  same_sign _ _ = false

  abbrev pub edge_of : EvidenceRow V → Edge V
  edge_of row = record { src = row.source; dst = row.target; strength = row.strength }

  -- the edges of one sign with both ends active
  unfoldable pub routed : EdgeSign → (NodeId → Bool) → List (EvidenceRow V) → List (Edge V)
  routed sign active [] = []
  routed sign active (row ∷ rows) =
      let rest = routed sign active rows in
      if (active row.source && active row.target) && same_sign row.sign sign
      then edge_of row ∷ rest
      else rest

  abbrev pub ids_of : List (NodeRow V) → List NodeId
  ids_of nodes = map (λ r. r.id) nodes

  abbrev pub confidence_of : List (NodeRow V) → NodeId → V
  confidence_of nodes nid = elim (row_of nodes nid) [
    | none ↦ reading.strengths.nothing
    | some r ↦ r.confidence
  ]

  unfoldable pub assemble_baf :
      List (NodeRow V) → List (EvidenceRow V) → Option (List ℕ) → AdjudicationInput V
  assemble_baf nodes edges boxes =
      let active = is_active nodes boxes in
      let arguments = keep active (distinct (ids_of nodes)) in
      record {
        baf = record {
          arguments = arguments;
          supports = sort_edges (routed supports active edges);
          attacks = sort_edges (routed refutes active edges);
        };
        base = map (λ nid. (nid, confidence_of nodes nid)) arguments;
      }

  -- the verdict on one hypothesis; `none` is the `ValueError` of the banding
  abbrev pub verdict_on :
      GradualSemantics V → Baf V → (NodeId → V) → NodeId → Option (HypothesisVerdict V)
  verdict_on semantics baf acceptability hid =
      let (agg_support, agg_attack) =
        aggregate_evidence reading.strengths semantics baf acceptability hid in
      do
        presented ← band (reading.millionths (acceptability hid))
        state ←
            classify_state (reading.millionths (acceptability hid))
              (reading.less agg_support agg_attack)
        some record {
          id = hid;
          acceptability = acceptability hid;
          presented = presented;
          state = state;
        }

  -- the loop over the hypotheses
  unfoldable pub verdicts_on :
      GradualSemantics V → Baf V → (NodeId → V) → List NodeId → Option (List (HypothesisVerdict V))
  verdicts_on semantics baf acceptability [] = some []
  verdicts_on semantics baf acceptability (hid ∷ hids) =
      let rest = verdicts_on semantics baf acceptability hids in
      elim (contains baf.arguments hid) [
        | true ↦ do
          verdict ← verdict_on semantics baf acceptability hid
          later ← rest
          some (verdict ∷ later)
        | false ↦ rest
      ]

  -- `none` is a `ValueError`: of a score or an edge off the unit interval
  unfoldable pub adjudicate :
      GradualSemantics V → AdjudicationInput V → List NodeId → Option (AdjudicationResult V)
  adjudicate semantics inp hypothesis_ids = do
    result ← solve reading.strengths semantics inp.baf inp.base max_sweeps
    verdicts ← verdicts_on semantics inp.baf result.acceptability (sorted hypothesis_ids)
    some record {
      acceptability = result.acceptability;
      verdicts = verdicts;
      converged = result.converged;
      unstable = result.unstable;
    }

abbrev pub is_refuted : HypothesisState → Bool
is_refuted supported = false
is_refuted unsupported = false
is_refuted refuted = true

abbrev pub decision_authorises : Option GateDecision → Bool
decision_authorises none = false
decision_authorises (some d) = outcome_authorised d.outcome

unfoldable pub refutation_held : HypothesisState → Option GateDecision → Bool
refutation_held state decision = is_refuted state && not (decision_authorises decision)

-- the properties of a hypothesis node that the writer sets
pub record HypothesisNode (V : Type 0) : Type 0 where
  pub acceptability : V
  pub state : Option HypothesisState
  pub pending_refutation : Bool

pub record HeldRefutation : Type 0 where
  pub id : NodeId
  pub held_state : HypothesisState
  pub decision : Option GateDecision

pub record PersistResult : Type 0 where
  pub written : ℕ
  pub held : List HeldRefutation

-- the current hypothesis nodes
abbrev pub Store : Type 0 → Type 0
Store V = NodeId → Option (HypothesisNode V)

module _ {V : Type 0} where
  -- `SET` on the node that the `MATCH` finds, if it finds one
  abbrev pub set_node : Option (HypothesisNode V) → HypothesisNode V → Option (HypothesisNode V)
  set_node none written = none
  set_node (some old) written = some written

  unfoldable pub written_to : NodeId → HypothesisNode V → Store V → Store V
  written_to hid new store k = if hid == k then set_node (store k) new else store k

  abbrev pub prior_state : Option (HypothesisNode V) → HypothesisState
  prior_state none = unsupported
  prior_state (some n) = elim n.state [ none ↦ unsupported | some s ↦ s ]

  abbrev pub node_with : V → HypothesisState → Bool → HypothesisNode V
  node_with acceptability state pending = record {
    acceptability = acceptability;
    state = some state;
    pending_refutation = pending;
  }

  unfoldable pub persist_verdicts :
      (NodeId → Option GateDecision)
      → List (HypothesisVerdict V)
      → Store V
      → Store V × PersistResult
  persist_verdicts decisions [] store = (store, record { written = 0; held = [] })
  persist_verdicts decisions (v ∷ vs) store =
      let decision = decisions v.id in
      let kept = prior_state (store v.id) in
      let with_hold =
        persist_verdicts decisions vs
          (written_to v.id (node_with v.acceptability kept true) store) in
      let as_computed =
        persist_verdicts decisions vs
          (written_to v.id (node_with v.acceptability v.state false) store) in
      if refutation_held v.state decision
      then (
        with_hold.0,
        record {
          written = suc with_hold.1.written;
          held = record { id = v.id; held_state = kept; decision = decision } ∷ with_hold.1.held;
        },
      )
      else (
        as_computed.0,
        record { written = suc as_computed.1.written; held = as_computed.1.held },
      )
