-- ===== src/RevisionLoop/Passes.antt =====
-- One pass of core/revision_loop.py: which hypotheses it gives a verdict on, and what the default
-- policy makes of them.
use iknos.Prelude.{
  ◌≡◌, refl, sym, ap, ◌∙◌, inl, inr, Bool, true, ◌&&◌, some, List, [], ◌∷◌, any, contains,
  contains-sorted, minus, sorted, ◌==◌, bind_inv, some_inv, Bool-cases, arith, map,
}
use iknos.TruthMaintenance.Graph.{NodeId}
use iknos.Intentional.{band}
use iknos.Qbaf.{Baf, GradualSemantics, classify_state, solve}
use iknos.DerivationAdapter.{support_and_confidence}
use iknos.QbafAdapter.{
  HypothesisVerdict, AdjudicationInput, AdjudicationResult, Reading, verdict_on, verdicts_on,
  adjudicate, assemble_baf, is_refuted, decision_authorises, max_sweeps,
}
use iknos.RevisionLoop.{
  GateDecisions, Engines, RevisionPlan, RevisionSnapshot, active_rows, scored_row, adjudicate_at,
  newly,
}

abbrev pub has_verdict : {V : Type 0} → List (HypothesisVerdict V) → NodeId → Bool
has_verdict vs x = any (λ v. v.id == x) vs

module _ {V : Type 0} (reading : Reading V) (semantics : GradualSemantics V) where
  verdict_on_id :
      (baf : Baf V) (acc : NodeId → V) (hid : NodeId) (v : HypothesisVerdict V)
      → verdict_on reading semantics baf acc hid ≡ some v
      → v.id ≡ hid
  verdict_on_id baf acc hid v e =
      let (b, _, rest) = bind_inv (band (reading.millionths (acc hid))) _ v e in
      let (s, _, made) = bind_inv (classify_state (reading.millionths (acc hid)) _) _ v rest in
      sym (ap (λ (w : HypothesisVerdict V). w.id) (some_inv made))

  verdicts_on_ids :
      (baf : Baf V) (acc : NodeId → V) (hids : List NodeId) (vs : List (HypothesisVerdict V))
      → verdicts_on reading semantics baf acc hids ≡ some vs
      → (x : NodeId) → has_verdict vs x ≡ true
      → contains hids x ≡ true
  unfolding verdicts_on contains
  verdicts_on_ids baf acc [] vs e x m = absurd (
      let none_at_all : has_verdict {V = V} [] x ≡ true =
        ap (λ l. has_verdict l x) (some_inv e) ∙ m in
      cc)
  verdicts_on_ids baf acc (hid ∷ hids) vs e x m = elim (Bool-cases (contains baf.arguments hid)) [
    | inl present ↦
        let run = rw (present, verdicts_on) at e in
        let (v, made, rest) = bind_inv (verdict_on reading semantics baf acc hid) _ vs run in
        let (later, rest_made, all) =
          bind_inv (verdicts_on reading semantics baf acc hids) _ vs rest in
        let listed : has_verdict (v ∷ later) x ≡ true =
          ap (λ l. has_verdict l x) (some_inv all) ∙ m in
        let named = verdict_on_id baf acc hid v made in
        elim (Bool-cases (v.id == x)) [
          | inl first ↦ let at : hid ≡ x = ground arith in ground arith
          | inr further ↦
              let rest_in = verdicts_on_ids baf acc hids later rest_made x (ground arith) in
              ground arith
        ]
    | inr absent ↦
        let rest = verdicts_on_ids baf acc hids vs (rw (absent, verdicts_on) at e) x m in
        ground arith
  ]

  adjudicate_ids :
      (inp : AdjudicationInput V) (hids : List NodeId) (r : AdjudicationResult V)
      → adjudicate reading semantics inp hids ≡ some r
      → (x : NodeId) → has_verdict r.verdicts x ≡ true
      → contains hids x ≡ true
  unfolding adjudicate
  adjudicate_ids inp hids r e x m =
      let (result, _, rest) =
        bind_inv (solve reading.strengths semantics inp.baf inp.base max_sweeps) _ r e in
      let (vs, made, all) =
        bind_inv (verdicts_on reading semantics inp.baf result.acceptability (sorted hids)) _ r
          rest in
      let listed : has_verdict vs x ≡ true =
        ap (λ (s : AdjudicationResult V). has_verdict s.verdicts x) (some_inv all) ∙ m in
      sym (contains-sorted hids x)
      ∙ verdicts_on_ids inp.baf result.acceptability (sorted hids) vs made x listed

-- what a pass at a set of retracted nodes yields
pub record Pass {V : Type 0} (plan : RevisionPlan V) (retracted : List NodeId)
    (snap : RevisionSnapshot V) : Type 0 where
  pub at : snap.retracted ≡ retracted
  pub decided : snap.decisions ≡ plan.decide snap.verdicts
  pub verdict_ids :
      (x : NodeId)
      → has_verdict snap.verdicts x ≡ true
      → contains (minus plan.hypothesis_ids retracted) x ≡ true

module _ {V : Type 0} (engines : Engines V) (plan : RevisionPlan V) where
  pub adjudicate_at-Pass :
      (retracted : List NodeId) (snap : RevisionSnapshot V)
      → adjudicate_at engines plan retracted ≡ some snap
      → Pass plan retracted snap
  unfolding adjudicate_at
  adjudicate_at-Pass retracted snap e =
      let active = active_rows retracted plan.nodes in
      let hids = minus plan.hypothesis_ids retracted in
      let (certified, _, rest) = bind_inv (support_and_confidence engines.degrees _) _ snap e in
      let inp =
        assemble_baf engines.reading (map (scored_row engines plan certified.1) active) plan.edges
          (some plan.box_ids) in
      let (r, made, all) =
        bind_inv (adjudicate engines.reading engines.semantics inp hids) _ snap rest in
      let same = some_inv all in
      record {
        at = sym (ap (λ (s : RevisionSnapshot V). s.retracted) same);
        decided =
            sym (ap (λ (s : RevisionSnapshot V). s.decisions) same)
            ∙ ap (λ (s : RevisionSnapshot V). plan.decide s.verdicts) same;
        verdict_ids = λ x m.
            adjudicate_ids engines.reading engines.semantics inp hids r made x
              (ap (λ (s : RevisionSnapshot V). has_verdict s.verdicts x) same ∙ m);
      }

-- the default policy retracts what a verdict refutes and a decision authorises
abbrev pub refuted_by_gate :
    {V : Type 0} → List (HypothesisVerdict V) → GateDecisions → NodeId → Bool
refuted_by_gate vs decisions x =
    any (λ v. v.id == x && is_refuted v.state && decision_authorises (decisions v.id)) vs

pub contains-newly :
    {V : Type 0} (vs : List (HypothesisVerdict V)) (decisions : GateDecisions) (x : NodeId)
    → contains (newly vs decisions) x ≡ refuted_by_gate vs decisions x
unfolding newly contains
contains-newly [] decisions x = refl
contains-newly (v ∷ vs) decisions x = ground (arith, contains-newly vs decisions x)

pub refuted_by_gate-has_verdict :
    {V : Type 0} (vs : List (HypothesisVerdict V)) (decisions : GateDecisions) (x : NodeId)
    → refuted_by_gate vs decisions x ≡ true
    → has_verdict vs x ≡ true
refuted_by_gate-has_verdict [] decisions x r = cc
refuted_by_gate-has_verdict (v ∷ vs) decisions x r =
    ground (arith, refuted_by_gate-has_verdict vs decisions x)
