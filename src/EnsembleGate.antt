-- ===== src/EnsembleGate.antt =====
-- core/ensemble_gate.py: the authoriser of a `refuted` flip.
-- The audit texts are data here: what a text says, not its spelling.
pub mod Collect
pub mod Authorise
pub mod Panel
mod Tests
use iknos.Prelude.{
  ℕ, zero, suc, ◌≡◌, Bool, true, false, not, ◌&&◌, Option, none, some, List, [], ◌∷◌, ◌++◌, ◌==◌,
  ltb, if◌then◌else◌, length, sorted,
}
use iknos.TruthMaintenance.Graph.{NodeId}

pub data EdgeSign : Type 0 where
  supports refutes : EdgeSign

-- `SignedJudgment`. The strength is compared only, so any scale of it will do.
pub record SignedJudgment : Type 0 where
  pub sign : EdgeSign
  pub hypothesis : NodeId
  pub evidence : NodeId
  pub strength : ℕ
  pub sign_stable : Bool

pub data GateChannel : Type 0 where
  llm symbolic temporal : GateChannel

pub data ChannelStance : Type 0 where
  affirm dissent abstain : ChannelStance

-- the details that this module writes, and those of other producers
pub data Detail : Type 0 where
  no_detail no_refuting_edge symbolic_unwired temporal_unwired : Detail
  all_unstable : ℕ → Detail
  stable_refuting : ℕ → SignedJudgment → Detail
  text : List ℕ → Detail

pub record ChannelSignal : Type 0 where
  pub channel : GateChannel
  pub stance : ChannelStance
  pub detail : Detail

abbrev pub affirming : GateChannel → Detail → ChannelSignal
affirming c d = record { channel = c; stance = affirm; detail = d }

abbrev pub dissenting : GateChannel → Detail → ChannelSignal
dissenting c d = record { channel = c; stance = dissent; detail = d }

abbrev pub abstaining : GateChannel → Detail → ChannelSignal
abstaining c d = record { channel = c; stance = abstain; detail = d }

pub data GateOutcome : Type 0 where
  authorised withheld : GateOutcome

-- the reasons that withhold a flip
pub data Reason : Type 0 where
  dissents : ChannelSignal → Reason
  required_abstained : ChannelSignal → Reason
  did_not_report : GateChannel → Reason

pub record GateDecision : Type 0 where
  pub outcome : GateOutcome
  pub signals : List ChannelSignal
  pub reasons : List Reason

-- the property `authorised` of a decision, and `is_finding`
abbrev pub outcome_authorised : GateOutcome → Bool
outcome_authorised authorised = true
outcome_authorised withheld = false

abbrev pub is_finding : GateDecision → Bool
is_finding d = not (outcome_authorised d.outcome)

-- The name of a gate is for the audit trail only.
pub record RefutationGate : Type 0 where
  pub required : GateChannel → Bool

abbrev pub default_gate : RefutationGate
default_gate = record { required = λ c. elim c [ llm ↦ true | symbolic ↦ true | temporal ↦ false ] }

abbrev pub strict_gate : RefutationGate
strict_gate = record { required = λ c. true }

abbrev pub llm_only_gate : RefutationGate
llm_only_gate = record {
  required = λ c. elim c [ llm ↦ true | symbolic ↦ false | temporal ↦ false ];
}

-- the order of the members of the enum, which is also that of their values
abbrev pub channel_order : GateChannel → ℕ
channel_order llm = 0
channel_order symbolic = 1
channel_order temporal = 2

abbrev pub same_channel : GateChannel → GateChannel → Bool
same_channel a b = channel_order a == channel_order b

abbrev pub gate_channels : List GateChannel
gate_channels = llm ∷ symbolic ∷ temporal ∷ []

abbrev pub is_dissent : ChannelStance → Bool
is_dissent affirm = false
is_dissent dissent = true
is_dissent abstain = false

abbrev pub is_affirm : ChannelStance → Bool
is_affirm affirm = true
is_affirm dissent = false
is_affirm abstain = false

-- the dict `by_channel`
abbrev pub Table : Type 0
Table = GateChannel → Option ChannelSignal

unfoldable pub put : ChannelSignal → Table → Table
put s t c = if same_channel s.channel c then some s else t c

-- the first loop; `none` is the ValueError of a duplicate
unfoldable pub collect : List ChannelSignal → Table → Option Table
unfolding put
collect [] t = some t
collect (s ∷ ss) t =
    let rest = collect ss (put s t) in elim (t s.channel) [ some other ↦ none | none ↦ rest ]

abbrev pub present : Option ChannelSignal → List ChannelSignal
present none = []
present (some s) = s ∷ []

-- `tuple(by_channel[c] for c in GateChannel if c in by_channel)`
unfoldable pub ordered : Table → List GateChannel → List ChannelSignal
ordered t [] = []
ordered t (c ∷ cs) = present (t c) ++ ordered t cs

-- rule 1
unfoldable pub dissent_reasons : List ChannelSignal → List Reason
dissent_reasons [] = []
dissent_reasons (s ∷ ss) =
    let rest = dissent_reasons ss in if is_dissent s.stance then dissents s ∷ rest else rest

-- rule 2, for one channel and for all
abbrev pub stance_reason : ChannelSignal → ChannelStance → List Reason
stance_reason s affirm = []
stance_reason s dissent = []
stance_reason s abstain = required_abstained s ∷ []

abbrev pub unmet_reason : GateChannel → Option ChannelSignal → List Reason
unmet_reason c none = did_not_report c ∷ []
unmet_reason c (some s) = stance_reason s s.stance

unfoldable pub required_reasons : RefutationGate → Table → List GateChannel → List Reason
required_reasons gate t [] = []
required_reasons gate t (c ∷ cs) =
    let rest = required_reasons gate t cs in
    if gate.required c then unmet_reason c (t c) ++ rest else rest

abbrev pub outcome_of : List Reason → GateOutcome
outcome_of [] = authorised
outcome_of (r ∷ rs) = withheld

unfoldable pub decide : RefutationGate → Table → GateDecision
unfolding ordered dissent_reasons required_reasons
decide gate t =
    let signals = ordered t gate_channels in
    let reasons = dissent_reasons signals ++ required_reasons gate t gate_channels in
    record { outcome = outcome_of reasons; signals = signals; reasons = reasons }

unfoldable pub authorise : RefutationGate → List ChannelSignal → Option GateDecision
unfolding collect decide
authorise gate signals = elim (collect signals (λ c. none)) [
  | none ↦ none
  | some t ↦ some (decide gate t)
]
