-- ===== src/EnsembleGate/Panel/Verdict.antt =====
-- When a panel with its symbolic and temporal checks flips a hypothesis.
use iknos.Prelude.{
  ℕ, ◌≡◌, ◌≢◌, refl, sym, ◌∙◌, ◌↔◌, inl, inr, Bool, true, false, not, ◌&&◌, Option, none, some,
  List, [], ◌∷◌, any, contains, Distinct, length, Bool-cases, arith,
}
use iknos.TruthMaintenance.Graph.{NodeId}
use iknos.EnsembleGate.{
  SignedJudgment, GateChannel, llm, symbolic, temporal, ChannelStance, affirm, dissent, abstain,
  ChannelSignal, authorised, withheld, GateDecision, RefutationGate, default_gate, is_dissent,
  is_affirm, is_finding, outcome_authorised, GateOutcome,
}
use iknos.EnsembleGate.Authorise.{authorise_iff}
use iknos.EnsembleGate.Collect.{channels, speaks}
use iknos.EnsembleGate.Panel.{
  is_refutes, bears_on, refuters_of, stable_of, llm_channel, symbolic_channel, temporal_channel,
  given, authorise_from_panel, stable_signal, panel_signal,
}

-- the panel agreed on a refutation of `h`
abbrev pub refuted_by : Option NodeId → List SignedJudgment → Bool
refuted_by h js = any (λ j. (is_refutes j.sign && bears_on h j) && j.sign_stable) js

any-refuters :
    (h : Option NodeId) (js : List SignedJudgment)
    → any (λ j. j.sign_stable) (refuters_of h js) ≡ refuted_by h js
unfolding refuters_of
any-refuters h [] = refl
any-refuters h (j ∷ js) = elim (Bool-cases (is_refutes j.sign && bears_on h j)) [
  | inl hit ↦ rw hit (ground (arith, any-refuters h js))
  | inr miss ↦ rw miss (any-refuters h js)
]

abbrev some_stable : List SignedJudgment → Bool
some_stable [] = false
some_stable (j ∷ js) = true

some_stable_of :
    (js : List SignedJudgment) → some_stable (stable_of js) ≡ any (λ j. j.sign_stable) js
unfolding stable_of
some_stable_of [] = refl
some_stable_of (j ∷ js) = elim (Bool-cases j.sign_stable) [
  | inl stable ↦ rw stable refl
  | inr split ↦ rw split (some_stable_of js)
]

-- a signal of the panel that affirms if the test holds, and abstains otherwise
abbrev pub PanelSignal : Bool → ChannelSignal → Type 0
PanelSignal b s = (is_affirm s.stance ≡ b) × (is_dissent s.stance ≡ false) × (s.channel ≡ llm)

stable_signal_lem :
    (n : ℕ) (ks : List SignedJudgment) → PanelSignal (some_stable ks) (stable_signal n ks)
stable_signal_lem n [] = (refl, refl, refl)
stable_signal_lem n (k ∷ ks) = (refl, refl, refl)

panel_signal_lem :
    (js : List SignedJudgment) → PanelSignal (any (λ j. j.sign_stable) js) (panel_signal js)
panel_signal_lem [] = (refl, refl, refl)
panel_signal_lem (j ∷ js) =
    rw some_stable_of at (stable_signal_lem (length (j ∷ js)) (stable_of (j ∷ js)))

-- The channel of the panel affirms exactly if a stable judgment refutes the hypothesis, and it
-- never dissents.
pub llm_channel_lem :
    (js : List SignedJudgment) (h : Option NodeId)
    → PanelSignal (refuted_by h js) (llm_channel js h)
unfolding llm_channel
llm_channel_lem js h = rw any-refuters at (panel_signal_lem (refuters_of h js))

-- The checks of a caller are signals of their own channels.
abbrev pub Tagged : GateChannel → Option ChannelSignal → Type 0
Tagged c none = Unit
Tagged c (some s) = s.channel ≡ c

given_channel :
    (c : GateChannel) (s : Option ChannelSignal) (default : ChannelSignal)
    → default.channel ≡ c
    → Tagged c s
    → (given s default).channel ≡ c
given_channel c none default d t = d
given_channel c (some s) default d t = t

affirm_quiet : (x : ChannelStance) → is_affirm x ≡ true → is_dissent x ≡ false
affirm_quiet affirm h = refl
affirm_quiet dissent h = cc
affirm_quiet abstain h = refl

held : (d : GateDecision) → d.outcome ≢ authorised → is_finding d ≡ true
held d h = go d.outcome h
  where
    go : (o : GateOutcome) → o ≢ authorised → not (outcome_authorised o) ≡ true
    go authorised k = absurd (k refl)
    go withheld k = refl

module _ (js : List SignedJudgment) (h : Option NodeId) (logic time : Option ChannelSignal)
    (logic_tagged : Tagged symbolic logic) (time_tagged : Tagged temporal time) where
  abbrev a : ChannelSignal
  a = llm_channel js h

  abbrev b : ChannelSignal
  b = given logic symbolic_channel

  abbrev c : ChannelSignal
  c = given time temporal_channel

  b_channel : b.channel ≡ symbolic
  b_channel = given_channel symbolic logic symbolic_channel refl logic_tagged

  c_channel : c.channel ≡ temporal
  c_channel = given_channel temporal time temporal_channel refl time_tagged

  once : Distinct (channels (a ∷ b ∷ c ∷ []))
  unfolding contains
  once = rw ((llm_channel_lem js h).2, b_channel, c_channel) (refl, (refl, (refl, tt)))

  -- the gate decides: three channels, one signal to each
  pub panel_decides :
      (gate : RefutationGate)
      → (d : GateDecision) × (authorise_from_panel js h logic time gate ≡ some d)
  unfolding authorise_from_panel
  panel_decides gate = let (d, e, iff) = authorise_iff gate (a ∷ b ∷ c ∷ []) once in (d, e)

  speaks_llm : speaks is_affirm llm (a ∷ b ∷ c ∷ []) ≡ is_affirm a.stance
  speaks_llm = rw ((llm_channel_lem js h).2, b_channel, c_channel) (ground arith)

  speaks_symbolic : speaks is_affirm symbolic (a ∷ b ∷ c ∷ []) ≡ is_affirm b.stance
  speaks_symbolic = rw ((llm_channel_lem js h).2, b_channel, c_channel) (ground arith)

  default_met :
      (x : GateChannel)
      → default_gate.required x ≡ true
      → refuted_by h js ≡ true
      → is_affirm b.stance ≡ true
      → speaks is_affirm x (a ∷ b ∷ c ∷ []) ≡ true
  default_met llm r panel check = speaks_llm ∙ (llm_channel_lem js h).0 ∙ panel
  default_met symbolic r panel check = speaks_symbolic ∙ check
  default_met temporal r panel check = cc

  -- Under the default gate a panel flips the hypothesis exactly if a stable judgment refutes it,
  -- the symbolic check affirms, and the temporal check does not dissent.
  pub authorise_from_panel-default :
      (d : GateDecision) × (authorise_from_panel js h logic time default_gate ≡ some d)
      × ((d.outcome ≡ authorised) ↔ (
          (refuted_by h js ≡ true)
          × (is_affirm (given logic symbolic_channel).stance ≡ true)
          × (is_dissent (given time temporal_channel).stance ≡ false)))
  unfolding authorise_from_panel
  authorise_from_panel-default =
      let (d, e, iff) = authorise_iff default_gate (a ∷ b ∷ c ∷ []) once in
      let (affirms, quiet, at) = llm_channel_lem js h in
      (
        d,
        e,
        (
          λ o.
              let (no_dissent, required) = iff.0 o in
              let one = required llm refl in
              let two = required symbolic refl in
              (sym affirms ∙ sym speaks_llm ∙ one, sym speaks_symbolic ∙ two, ground arith),
          λ o.
              let calm = affirm_quiet b.stance o.1 in
              iff.1 (ground (arith, quiet, calm, o.2), λ x r. default_met x r o.0 o.1),
        ),
      )

  -- Without a symbolic check, the default gate flips nothing: the refutation is a finding.
  pub authorise_from_panel_safe :
      logic ≡ none
      → (d : GateDecision) × (authorise_from_panel js h logic time default_gate ≡ some d)
        × (is_finding d ≡ true)
  authorise_from_panel_safe unchecked =
      let (d, e, iff) = authorise_from_panel-default in
      (d, e, held d (λ o. let two = (iff.0 o).1 in let none_affirms = rw unchecked at two in cc))
