-- ===== src/EnsembleGate/Tests.antt =====
-- Runs of the ensemble gate, and the theorems at them.
use iknos.Prelude.{
  ◌≡◌, refl, ◌↔◌, true, false, none, some, List, [], ◌∷◌, any, contains, Distinct, sorted,
  if◌then◌else◌,
}
use iknos.TruthMaintenance.Graph.{NodeId}
use iknos.EnsembleGate.{
  refutes, SignedJudgment, GateChannel, llm, symbolic, ChannelSignal, affirming, dissenting,
  no_detail, GateDecision, authorised, default_gate, strict_gate, is_dissent, is_affirm, authorise,
}
use iknos.EnsembleGate.Authorise.{authorise_iff, authorise_refuses}
use iknos.EnsembleGate.Collect.{channels, speaks}
use iknos.EnsembleGate.Panel.{
  llm_channel, authorise_from_panel, authorised_hypotheses, given, symbolic_channel,
  temporal_channel, Decisions,
}
use iknos.EnsembleGate.Panel.Verdict.{
  refuted_by, PanelSignal, llm_channel_lem, authorise_from_panel-default,
}
use iknos.EnsembleGate.Panel.Batch.{alone, decided, decision_of, authorised_hypotheses_lem}

abbrev agreement : List ChannelSignal
agreement = affirming symbolic no_detail ∷ affirming llm no_detail ∷ []

agreement_once : Distinct (channels agreement)
unfolding contains
agreement_once = (refl, (refl, tt))

-- a stable refutation of 9 by 4, and an unstable one by 5
abbrev panel : List SignedJudgment
panel =
    record { sign = refutes; hypothesis = 9; evidence = 4; strength = 7; sign_stable = true }
    ∷ record { sign = refutes; hypothesis = 9; evidence = 5; strength = 8; sign_stable = false }
    ∷ []

authorise_iff_example :
    (d : GateDecision) × (authorise default_gate agreement ≡ some d)
    × ((d.outcome ≡ authorised) ↔ (
        (any (λ s. is_dissent s.stance) agreement ≡ false)
        × ((c : GateChannel)
            → default_gate.required c ≡ true
            → speaks is_affirm c agreement ≡ true)))
authorise_iff_example = authorise_iff default_gate agreement agreement_once

authorise_refuses_example :
    (authorise strict_gate (affirming llm no_detail ∷ dissenting llm no_detail ∷ []) ≡ none)
    ↔ ¬ Distinct (channels (affirming llm no_detail ∷ dissenting llm no_detail ∷ []))
authorise_refuses_example =
    authorise_refuses strict_gate (affirming llm no_detail ∷ dissenting llm no_detail ∷ [])

llm_channel_lem_example : PanelSignal (refuted_by (some 9) panel) (llm_channel panel (some 9))
llm_channel_lem_example = llm_channel_lem panel (some 9)

authorise_from_panel-default_example :
    (d : GateDecision) × (authorise_from_panel panel
        (some 9)
        (some (affirming symbolic no_detail))
        none
        default_gate
      ≡ some d)
    × ((d.outcome ≡ authorised) ↔ (
        (refuted_by (some 9) panel ≡ true)
        × (is_affirm (given (some (affirming symbolic no_detail)) symbolic_channel).stance ≡ true)
        × (is_dissent (given none temporal_channel).stance ≡ false)))
authorise_from_panel-default_example =
    authorise_from_panel-default panel (some 9) (some (affirming symbolic no_detail)) none refl tt

authorised_hypotheses_lem_example :
    (ds : Decisions) × (authorised_hypotheses
        (λ h. panel)
        (λ h. none)
        (λ h. none)
        default_gate
        (9 ∷ 3 ∷ 9 ∷ [])
      ≡ some ds)
    × (decided ds ≡ sorted (9 ∷ 3 ∷ 9 ∷ []))
    × ((x : NodeId)
        → decision_of ds x ≡ (
            if contains (9 ∷ 3 ∷ 9 ∷ []) x
            then alone (λ h. panel) (λ h. none) (λ h. none) default_gate (λ h. tt) (λ h. tt) x
            else none))
authorised_hypotheses_lem_example =
    authorised_hypotheses_lem (λ h. panel) (λ h. none) (λ h. none) default_gate (λ h. tt) (λ h. tt)
      (9 ∷ 3 ∷ 9 ∷ [])
