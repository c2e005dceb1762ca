-- ===== src/QbafAdapter/Persist.antt =====
-- The writer of the verdicts in core/qbaf_adapter.py keeps an unauthorised refutation out.
use iknos.Prelude.{
  ◌≡◌, refl, sym, ap, ◌∙◌, inl, inr, Bool, true, false, not, ◌&&◌, ◌||◌, Option, none, some, List,
  [], ◌∷◌, length, any, ◌==◌, if◌then◌else◌, Bool-cases, arith,
}
use iknos.TruthMaintenance.Graph.{NodeId}
use iknos.EnsembleGate.{GateDecision}
use iknos.Intentional.{HypothesisState}
use iknos.QbafAdapter.{
  HypothesisVerdict, HypothesisNode, Store, is_refuted, decision_authorises, refutation_held,
  set_node, written_to, prior_state, node_with, persist_verdicts,
}

module _ {V : Type 0} where
  -- the stored state of a hypothesis is `refuted`
  abbrev pub stored_refuted : Option (HypothesisNode V) → Bool
  stored_refuted n = is_refuted (prior_state n)

  -- a computed refutation of `h` that the gate authorises
  abbrev pub authorised_flip :
      (NodeId → Option GateDecision) → List (HypothesisVerdict V) → NodeId → Bool
  authorised_flip decisions vs h =
      any (λ v. v.id == h && is_refuted v.state && decision_authorises (decisions v.id)) vs

  set_node-refuted :
      (n : Option (HypothesisNode V)) (a : V) (s : HypothesisState) (pending : Bool)
      → stored_refuted (set_node n (node_with a s pending)) ≡ true
      → is_refuted s ≡ true
  set_node-refuted none a s pending r = cc
  set_node-refuted (some old) a s pending r = r

  module _ (decisions : NodeId → Option GateDecision) where
    -- one write
    abbrev written_one : HypothesisVerdict V → Store V → Store V
    written_one v store =
        if refutation_held v.state (decisions v.id)
        then written_to v.id (node_with v.acceptability (prior_state (store v.id)) true) store
        else written_to v.id (node_with v.acceptability v.state false) store

    persist_one :
        (v : HypothesisVerdict V) (vs : List (HypothesisVerdict V)) (store : Store V)
        → (persist_verdicts decisions (v ∷ vs) store).0
          ≡ (persist_verdicts decisions vs (written_one v store)).0
    unfolding persist_verdicts
    persist_one v vs store = elim (Bool-cases (refutation_held v.state (decisions v.id))) [
      | inl held ↦ rw held refl
      | inr free ↦ rw free refl
    ]

    written_one_refuted :
        (v : HypothesisVerdict V) (store : Store V) (h : NodeId)
        → stored_refuted (written_one v store h) ≡ true
        → (stored_refuted (store h)
            || v.id == h && is_refuted v.state && decision_authorises (decisions v.id))
          ≡ true
    unfolding written_to refutation_held
    written_one_refuted v store h r = elim (Bool-cases (refutation_held v.state (decisions v.id))) [
      | inl held ↦ elim (Bool-cases (v.id == h)) [
        | inl at ↦
            let e : v.id ≡ h = ground arith in
            let kept = prior_state (store v.id) in
            let now : stored_refuted (set_node (store h) (node_with v.acceptability kept true))
                ≡ true =
              rw (held, at) at r in
            let before = set_node-refuted (store h) v.acceptability kept true now in
            let moved : stored_refuted (store h) ≡ true = rw e at before in ground arith
        | inr other ↦
            let same : stored_refuted (store h) ≡ true = rw (held, other) at r in ground arith
      ]
      | inr free ↦ elim (Bool-cases (v.id == h)) [
        | inl at ↦
            let now : stored_refuted (set_node (store h) (node_with v.acceptability v.state false))
                ≡ true =
              rw (free, at) at r in
            let computed = set_node-refuted (store h) v.acceptability v.state false now in
            ground arith
        | inr other ↦
            let same : stored_refuted (store h) ≡ true = rw (free, other) at r in ground arith
      ]
    ]

    -- Whatever the verdicts, a hypothesis is stored as refuted after the write only if it was before,
    -- or if some verdict computed the refutation and the gate authorises it.
    pub persist_verdicts_safe :
        (vs : List (HypothesisVerdict V)) (store : Store V) (h : NodeId)
        → stored_refuted ((persist_verdicts decisions vs store).0 h) ≡ true
        → (stored_refuted (store h) || authorised_flip decisions vs h) ≡ true
    unfolding persist_verdicts
    persist_verdicts_safe [] store h r = ground arith
    persist_verdicts_safe (v ∷ vs) store h r =
        let later : stored_refuted ((persist_verdicts decisions vs (written_one v store)).0 h)
            ≡ true =
          ap (λ (s : Store V). stored_refuted (s h)) (sym (persist_one v vs store)) ∙ r in
        let rest = persist_verdicts_safe vs (written_one v store) h later in
        elim (Bool-cases (stored_refuted (written_one v store h))) [
          | inl first ↦ let from_one = written_one_refuted v store h first in ground arith
          | inr clear ↦ ground arith
        ]

    -- a computed refutation of `h` that the gate does not authorise
    abbrev pub held_flip : List (HypothesisVerdict V) → NodeId → Bool
    held_flip vs h =
        any (λ v. v.id == h && is_refuted v.state && not (decision_authorises (decisions v.id))) vs

    -- The report counts every verdict as written, and holds exactly the hypotheses with a computed
    -- refutation that the gate does not authorise.
    pub persist_verdicts_reports :
        (vs : List (HypothesisVerdict V)) (store : Store V) (h : NodeId)
        → let r = (persist_verdicts decisions vs store).1 in
          (r.written ≡ length vs) × (any (λ x. x.id == h) r.held ≡ held_flip vs h)
    unfolding persist_verdicts refutation_held
    persist_verdicts_reports [] store h = (refl, refl)
    persist_verdicts_reports (v ∷ vs) store h =
        elim (Bool-cases (is_refuted v.state && not (decision_authorises (decisions v.id)))) [
          | inl held ↦
              let rest =
                persist_verdicts_reports vs
                  (written_to v.id (node_with v.acceptability (prior_state (store v.id)) true)
                    store)
                  h in
              rw held (ground arith)
          | inr free ↦
              let rest =
                persist_verdicts_reports vs
                  (written_to v.id (node_with v.acceptability v.state false) store) h in
              rw free (ground arith)
        ]
