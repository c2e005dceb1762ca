-- ===== src/QbafAdapter/Returns.antt =====
-- `adjudicate` of core/qbaf_adapter.py returns on the framework that `assemble_baf` makes of rows on
-- the unit interval.
use iknos.Prelude.{
  ℕ, ◌≤◌, ◌≡◌, refl, inl, inr, ◌&&◌, some, List, [], ◌∷◌, map, Each, contains, sorted, Bool-cases,
  Option-cases, Option, Bool, pos, unit, if◌then◌else◌,
}
use iknos.TruthMaintenance.Graph.{NodeId}
use iknos.EnsembleGate.{EdgeSign, supports, refutes}
use iknos.Intentional.{supported, unsupported, refuted}
use iknos.Intentional.Bands.{band-quarter}
use iknos.Qbaf.{Edge, Baf, GradualSemantics, classify_state, plausible, aggregate_evidence}
use iknos.Qbaf.Unital.{Unital, InUnit, WeighedIn, ScoredIn, solve-InUnit}
use iknos.DerivationAdapter.{NodeRow, row_of, is_active}
use iknos.DerivationAdapter.Strengths.{Each-row_of}
use iknos.QbafAdapter.{
  EvidenceRow, HypothesisVerdict, AdjudicationResult, Reading, edge_leb, insert_edge, sort_edges,
  same_sign, routed, confidence_of, assemble_baf, verdict_on, verdicts_on, adjudicate,
}

module _ {V : Type 0} (reading : Reading V) where
  -- the millionths of a strength on the unit interval are at most a million
  pub record ReadsUnit : Type 0 where
    pub at_most_unit :
        (v : V) → InUnit reading.strengths v → (x : ℕ) × (reading.millionths v ≡ pos x) × (x ≤ unit)

  Each-insert_edge :
      (e : Edge V) (es : List (Edge V))
      → WeighedIn reading.strengths e
      → Each (WeighedIn reading.strengths) es
      → Each (WeighedIn reading.strengths) (insert_edge reading e es)
  unfolding insert_edge
  Each-insert_edge e [] p ps = (p, ps)
  Each-insert_edge e (f ∷ fs) p ps = elim (Bool-cases (edge_leb reading e f)) [
    | inl first ↦ rw (first, insert_edge) (p, ps)
    | inr later ↦ rw (later, insert_edge) (ps.0, Each-insert_edge e fs p ps.1)
  ]

  Each-sort_edges :
      (es : List (Edge V))
      → Each (WeighedIn reading.strengths) es
      → Each (WeighedIn reading.strengths) (sort_edges reading es)
  unfolding sort_edges
  Each-sort_edges [] ps = ps
  Each-sort_edges (e ∷ es) ps =
      Each-insert_edge e (sort_edges reading es) ps.0 (Each-sort_edges es ps.1)

  abbrev pub RowIn : EvidenceRow V → Type 0
  RowIn row = InUnit reading.strengths row.strength

  abbrev pub NodeIn : NodeRow V → Type 0
  NodeIn row = InUnit reading.strengths row.confidence

  Each-routed :
      (sign : EdgeSign) (active : NodeId → Bool) (rows : List (EvidenceRow V))
      → Each RowIn rows
      → Each (WeighedIn reading.strengths) (routed reading sign active rows)
  unfolding routed
  Each-routed sign active [] ps = ps
  Each-routed sign active (row ∷ rows) ps =
      elim (Bool-cases
        ((active row.source && active row.target) && same_sign reading row.sign sign)) [
          | inl taken ↦ rw (taken, routed) (ps.0, Each-routed sign active rows ps.1)
          | inr left ↦ rw (left, routed) (Each-routed sign active rows ps.1)
        ]

  confidence_of_in :
      (nodes : List (NodeRow V)) (nid : NodeId)
      → InUnit reading.strengths reading.strengths.nothing
      → Each NodeIn nodes
      → InUnit reading.strengths (confidence_of reading nodes nid)
  confidence_of_in nodes nid p ps = elim (Option-cases (row_of nodes nid)) [
    | inl missing ↦ rw (missing, confidence_of) p
    | inr (r, found) ↦ rw (found, confidence_of) (Each-row_of NodeIn nodes nid r ps found)
  ]

  Each-scored :
      (nodes : List (NodeRow V)) (ids : List NodeId)
      → InUnit reading.strengths reading.strengths.nothing
      → Each NodeIn nodes
      → Each (ScoredIn reading.strengths) (map (λ nid. (nid, confidence_of reading nodes nid)) ids)
  Each-scored nodes [] p ps = record {}
  Each-scored nodes (a ∷ ids) p ps = (confidence_of_in nodes a p ps, Each-scored nodes ids p ps)

  module _ (reads : ReadsUnit) (semantics : GradualSemantics V)
      (unital : Unital reading.strengths semantics) where
    verdict_on_returns :
        (baf : Baf V) (acc : NodeId → V) (hid : NodeId)
        → InUnit reading.strengths (acc hid)
        → (v : HypothesisVerdict V) × (verdict_on reading semantics baf acc hid ≡ some v)
    unfolding classify_state
    verdict_on_returns baf acc hid p =
        let (x, e, h) = reads.at_most_unit (acc hid) p in
        let (b, banded, _, _) = band-quarter x h in
        let weighed = aggregate_evidence reading.strengths semantics baf acc hid in
        let verdict : HypothesisVerdict V = record {
          id = hid;
          acceptability = acc hid;
          presented = b;
          state =
              if plausible b
              then supported
              else if reading.less weighed.0 weighed.1
              then refuted
              else unsupported;
        } in
        (verdict, rw (e, banded, classify_state) refl)

    verdicts_on_returns :
        (baf : Baf V) (acc : NodeId → V)
        → ((a : NodeId) → InUnit reading.strengths (acc a))
        → (hids : List NodeId)
        → (vs : List (HypothesisVerdict V)) × (verdicts_on reading semantics baf acc hids ≡ some vs)
    unfolding verdicts_on
    verdicts_on_returns baf acc all_in [] = ([], refl)
    verdicts_on_returns baf acc all_in (hid ∷ hids) =
        let (vs, later) = verdicts_on_returns baf acc all_in hids in
        elim (Bool-cases (contains baf.arguments hid)) [
          | inl present ↦
              let (v, first) = verdict_on_returns baf acc hid (all_in hid) in
              (v ∷ vs, rw (present, verdicts_on, first, later) refl)
          | inr absent ↦ (vs, rw (absent, verdicts_on) later)
        ]

    pub adjudicate_returns :
        (nodes : List (NodeRow V)) (edges : List (EvidenceRow V)) (boxes : Option (List ℕ))
        (hids : List NodeId)
        → Each NodeIn nodes
        → Each RowIn edges
        → (r : AdjudicationResult V) × (adjudicate reading semantics
              (assemble_baf reading nodes edges boxes)
              hids
            ≡ some r)
    unfolding adjudicate assemble_baf
    adjudicate_returns nodes edges boxes hids nodes_in edges_in =
        let inp = assemble_baf reading nodes edges boxes in
        let (q, solved, all_in) =
          solve-InUnit reading.strengths semantics unital inp.baf inp.base
            (Each-sort_edges _ (Each-routed supports (is_active nodes boxes) edges edges_in))
            (Each-sort_edges _ (Each-routed refutes (is_active nodes boxes) edges edges_in))
            (Each-scored nodes _ unital.nothing_in nodes_in) 99 in
        let (vs, made) = verdicts_on_returns inp.baf q.acceptability all_in (sorted hids) in
        let result : AdjudicationResult V = record {
          acceptability = q.acceptability;
          verdicts = vs;
          converged = q.converged;
          unstable = q.unstable;
        } in
        (result, rw (solved, made) refl)
