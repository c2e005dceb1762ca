-- ===== src/EnsembleGate/Panel.antt =====
-- The channel producers of core/ensemble_gate.py, and the gate over a panel and over a batch.
pub mod Verdict
pub mod Batch
use iknos.Prelude.{
  ℕ, Bool, true, false, ◌&&◌, Option, none, some, List, [], ◌∷◌, ◌==◌, ltb, if◌then◌else◌, length,
  sorted,
}
use iknos.TruthMaintenance.Graph.{NodeId}
use iknos.EnsembleGate.{
  EdgeSign, supports, refutes, SignedJudgment, llm, symbolic, temporal, ChannelSignal, affirming,
  abstaining, no_refuting_edge, symbolic_unwired, temporal_unwired, all_unstable, stable_refuting,
  GateDecision, RefutationGate, authorise,
}

abbrev pub is_refutes : EdgeSign → Bool
is_refutes supports = false
is_refutes refutes = true

-- `hypothesis is None or j.hypothesis == hypothesis`
abbrev pub bears_on : Option NodeId → SignedJudgment → Bool
bears_on none j = true
bears_on (some h) j = j.hypothesis == h

unfoldable pub refuters_of : Option NodeId → List SignedJudgment → List SignedJudgment
refuters_of h [] = []
refuters_of h (j ∷ js) =
    let rest = refuters_of h js in if is_refutes j.sign && bears_on h j then j ∷ rest else rest

unfoldable pub stable_of : List SignedJudgment → List SignedJudgment
stable_of [] = []
stable_of (j ∷ js) = let rest = stable_of js in if j.sign_stable then j ∷ rest else rest

-- `max(..., key=strength)`: the first of the strongest
unfoldable pub strongest : SignedJudgment → List SignedJudgment → SignedJudgment
strongest best [] = best
strongest best (j ∷ js) = strongest (if ltb best.strength j.strength then j else best) js

abbrev pub stable_signal : ℕ → List SignedJudgment → ChannelSignal
stable_signal n [] = abstaining llm (all_unstable n)
stable_signal n (j ∷ js) = affirming llm (stable_refuting (length (j ∷ js)) (strongest j js))

abbrev pub panel_signal : List SignedJudgment → ChannelSignal
panel_signal [] = abstaining llm no_refuting_edge
panel_signal (j ∷ js) = stable_signal (length (j ∷ js)) (stable_of (j ∷ js))

unfoldable pub llm_channel : List SignedJudgment → Option NodeId → ChannelSignal
unfolding refuters_of stable_of strongest
llm_channel judgments h = panel_signal (refuters_of h judgments)

abbrev pub symbolic_channel : ChannelSignal
symbolic_channel = abstaining symbolic symbolic_unwired

abbrev pub temporal_channel : ChannelSignal
temporal_channel = abstaining temporal temporal_unwired

-- `signal if signal is not None else default`
abbrev pub given : Option ChannelSignal → ChannelSignal → ChannelSignal
given none default = default
given (some s) default = s

unfoldable pub authorise_from_panel :
    List SignedJudgment
    → Option NodeId
    → (symbolic temporal : Option ChannelSignal) → RefutationGate
    → Option GateDecision
unfolding llm_channel authorise
authorise_from_panel judgments h sym tmp gate =
    authorise gate
      (llm_channel judgments h ∷ given sym symbolic_channel ∷ given tmp temporal_channel ∷ [])

-- the dict of decisions, in the order of its keys
abbrev pub Decisions : Type 0
Decisions = List (NodeId × GateDecision)

abbrev pub with_decision : NodeId → Option GateDecision → Option Decisions → Option Decisions
with_decision h none rest = none
with_decision h (some d) none = none
with_decision h (some d) (some ds) = some ((h, d) ∷ ds)

module _ (judged : NodeId → List SignedJudgment) (sym tmp : NodeId → Option ChannelSignal)
    (gate : RefutationGate) where
  unfoldable pub decide_each : List NodeId → Option Decisions
  unfolding authorise_from_panel
  decide_each [] = some []
  decide_each (h ∷ hs) =
      with_decision h (authorise_from_panel (judged h) (some h) (sym h) (tmp h) gate)
        (decide_each hs)

  -- `none` is the ValueError that one of the gates raised
  unfoldable pub authorised_hypotheses : List NodeId → Option Decisions
  unfolding decide_each sorted
  authorised_hypotheses structurally_refuted = decide_each (sorted structurally_refuted)
