-- ===== src/EnsembleGate/Panel/Batch.antt =====
-- `authorised_hypotheses` of core/ensemble_gate.py: one decision for each refuted hypothesis.
use iknos.Prelude.{
  ◌≡◌, refl, sym, ap, ◌∙◌, inl, inr, Option, none, some, List, [], ◌∷◌, contains, sorted,
  contains-sorted, ◌==◌, if◌then◌else◌, Bool-cases, arith,
}
use iknos.TruthMaintenance.Graph.{NodeId}
use iknos.EnsembleGate.{
  SignedJudgment, ChannelSignal, symbolic, temporal, GateDecision, RefutationGate,
}
use iknos.EnsembleGate.Panel.{Decisions, decide_each, authorised_hypotheses, authorise_from_panel}
use iknos.EnsembleGate.Panel.Verdict.{Tagged, panel_decides}

abbrev pub decided : Decisions → List NodeId
decided [] = []
decided ((h, d) ∷ ds) = h ∷ decided ds

abbrev pub decision_of : Decisions → NodeId → Option GateDecision
decision_of [] x = none
decision_of ((h, d) ∷ ds) x = if h == x then some d else decision_of ds x

module _ (judged : NodeId → List SignedJudgment) (logic time : NodeId → Option ChannelSignal)
    (gate : RefutationGate) (logic_tagged : (h : NodeId) → Tagged symbolic (logic h))
    (time_tagged : (h : NodeId) → Tagged temporal (time h)) where
  -- the gate over one hypothesis
  abbrev pub alone : NodeId → Option GateDecision
  alone h = authorise_from_panel (judged h) (some h) (logic h) (time h) gate

  each :
      (hs : List NodeId)
      → (ds : Decisions) × (decide_each judged logic time gate hs ≡ some ds)
        × (decided ds ≡ hs)
        × ((x : NodeId) → decision_of ds x ≡ (if contains hs x then alone x else none))
  unfolding decide_each contains
  each [] = ([], refl, refl, λ x. refl)
  each (h ∷ hs) =
      let (d, one) =
        panel_decides (judged h) (some h) (logic h) (time h) (logic_tagged h) (time_tagged h)
          gate in
      let (ds, rest, keys, at) = each hs in
      (
        (h, d) ∷ ds,
        rw (one, rest) refl,
        rw keys refl,
        λ x. elim (Bool-cases (h == x)) [
          | inl same ↦
              let e : h ≡ x = ground arith in
              let here : alone x ≡ some d = ap alone (sym e) ∙ one in rw (same, here) refl
          | inr other ↦ rw other (at x)
        ],
      )

  -- The batch decides every refuted hypothesis once, in the order of ids, as the gate decides it
  -- alone, and no other.
  pub authorised_hypotheses_lem :
      (refuted : List NodeId)
      → (ds : Decisions) × (authorised_hypotheses judged logic time gate refuted ≡ some ds)
        × (decided ds ≡ sorted refuted)
        × ((x : NodeId) → decision_of ds x ≡ (if contains refuted x then alone x else none))
  unfolding authorised_hypotheses
  authorised_hypotheses_lem refuted =
      let (ds, e, keys, at) = each (sorted refuted) in
      (ds, e, keys, λ x. rw contains-sorted at (at x))
