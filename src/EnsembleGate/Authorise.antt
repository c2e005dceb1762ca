-- ===== src/EnsembleGate/Authorise.antt =====
-- When `authorise` of core/ensemble_gate.py authorises.
use iknos.Prelude.{
  ◌≡◌, refl, sym, ◌∙◌, ◌↔◌, inl, inr, Bool, true, false, not, ◌&&◌, ◌||◌, Option, none, some, List,
  [], ◌∷◌, ◌++◌, any, Distinct, Option-cases, arith,
}
use iknos.EnsembleGate.{
  GateChannel, llm, symbolic, temporal, ChannelStance, affirm, dissent, abstain, ChannelSignal,
  GateOutcome, authorised, withheld, GateDecision, RefutationGate, same_channel, gate_channels,
  is_dissent, is_affirm, Table, collect, ordered, dissent_reasons, required_reasons, outcome_of,
  decide, authorise, Reason, outcome_authorised, unmet_reason, stance_reason, present,
}
use iknos.EnsembleGate.Collect.{
  channels, first, or_else, speaks, holds, collect-first, collect-none, speaks-first,
}

-- no reason, as a test
abbrev clear : List Reason → Bool
clear rs = outcome_authorised (outcome_of rs)

clear-append : (rs qs : List Reason) → clear (rs ++ qs) ≡ (clear rs && clear qs)
clear-append [] qs = refl
clear-append (r ∷ rs) qs = refl

clear-dissent_reasons :
    (ss : List ChannelSignal) → clear (dissent_reasons ss) ≡ not (any (λ s. is_dissent s.stance) ss)
unfolding dissent_reasons
clear-dissent_reasons [] = refl
clear-dissent_reasons (s ∷ ss) = ground (arith, clear-dissent_reasons ss)

-- a required channel has reported, and has not abstained
abbrev spoke : Option ChannelSignal → Bool
spoke s = holds is_affirm s || holds is_dissent s

clear-unmet_reason :
    (c : GateChannel) (s : Option ChannelSignal) → clear (unmet_reason c s) ≡ spoke s
clear-unmet_reason c none = refl
clear-unmet_reason c (some s) = go s.stance
  where
    go : (x : ChannelStance) → clear (stance_reason s x) ≡ (is_affirm x || is_dissent x)
    go affirm = refl
    go dissent = refl
    go abstain = refl

abbrev met : RefutationGate → Table → GateChannel → Bool
met gate t c = not (gate.required c) || spoke (t c)

clear-required_reasons :
    (gate : RefutationGate) (t : Table)
    → clear (required_reasons gate t gate_channels)
      ≡ (met gate t llm && (met gate t symbolic && met gate t temporal))
unfolding required_reasons
clear-required_reasons gate t = ground (
  arith,
  clear-unmet_reason llm (t llm),
  clear-unmet_reason symbolic (t symbolic),
  clear-unmet_reason temporal (t temporal),
  clear-append (unmet_reason llm (t llm)) (required_reasons gate t (symbolic ∷ temporal ∷ [])),
  clear-append (unmet_reason symbolic (t symbolic)) (required_reasons gate t (temporal ∷ [])),
  clear-append (unmet_reason temporal (t temporal)) [],
)

abbrev heard : Table → (ChannelStance → Bool) → Bool
heard t p = holds p (t llm) || (holds p (t symbolic) || holds p (t temporal))

any-ordered :
    (t : Table) → any (λ s. is_dissent s.stance) (ordered t gate_channels) ≡ heard t is_dissent
unfolding ordered
any-ordered t = go (t llm) (t symbolic) (t temporal)
  where
    go :
        (a b c : Option ChannelSignal)
        → any (λ s. is_dissent s.stance) (present a ++ (present b ++ (present c ++ [])))
          ≡ (holds is_dissent a || (holds is_dissent b || holds is_dissent c))
    go a b c = ground arith

-- a stance of the list stands in one of the channels
any-speaks :
    (p : ChannelStance → Bool) (ss : List ChannelSignal)
    → any (λ s. p s.stance) ss ≡ (speaks p llm ss || (speaks p symbolic ss || speaks p temporal ss))
any-speaks p [] = refl
any-speaks p (s ∷ ss) = go s.channel (p s.stance) _ _ _ _ (any-speaks p ss)
  where
    go :
        (c : GateChannel) (this rest x y z : Bool)
        → rest ≡ (x || (y || z))
        → (this || rest) ≡ (
            ((same_channel c llm && this) || x)
            || (((same_channel c symbolic && this) || y)
                || ((same_channel c temporal && this) || z)))
    go llm this rest x y z h = ground arith
    go symbolic this rest x y z h = ground arith
    go temporal this rest x y z h = ground arith

decide_lem :
    (gate : RefutationGate) (t : Table)
    → outcome_authorised (decide gate t).outcome ≡ (
        not (heard t is_dissent)
        && (met gate t llm && (met gate t symbolic && met gate t temporal)))
unfolding decide
decide_lem gate t = ground (
  arith,
  any-ordered t,
  clear-dissent_reasons (ordered t gate_channels),
  clear-required_reasons gate t,
  clear-append (dissent_reasons (ordered t gate_channels)) (required_reasons gate t gate_channels),
)

outcome_iff : (o : GateOutcome) → (o ≡ authorised) ↔ (outcome_authorised o ≡ true)
outcome_iff authorised = (λ e. refl, λ e. refl)
outcome_iff withheld = (λ e. cc, λ e. cc)

met_affirms :
    (gate : RefutationGate) (t : Table) (c : GateChannel)
    → heard t is_dissent ≡ false
    → gate.required c ≡ true
    → met gate t c ≡ holds is_affirm (t c)
met_affirms gate t llm h r = ground arith
met_affirms gate t symbolic h r = ground arith
met_affirms gate t temporal h r = ground arith

met_free :
    (gate : RefutationGate) (t : Table) (c : GateChannel)
    → (gate.required c ≡ true → holds is_affirm (t c) ≡ true)
    → met gate t c ≡ true
met_free gate t c h = ground arith

met_all :
    (gate : RefutationGate) (t : Table) (c : GateChannel)
    → (met gate t llm && (met gate t symbolic && met gate t temporal)) ≡ true
    → met gate t c ≡ true
met_all gate t llm h = ground arith
met_all gate t symbolic h = ground arith
met_all gate t temporal h = ground arith

keep_some : (s u : Option ChannelSignal) → u ≡ or_else s none → u ≡ s
keep_some none u e = e
keep_some (some x) u e = e

-- what a collected table says, the signals say
heard-first :
    (ss : List ChannelSignal) (t : Table)
    → Distinct (channels ss)
    → ((c : GateChannel) → t c ≡ first ss c)
    → heard t is_dissent ≡ any (λ s. is_dissent s.stance) ss
heard-first ss t once at =
    rw (at llm, at symbolic, at temporal)
      (ground (
        arith,
        any-speaks is_dissent ss,
        speaks-first is_dissent llm ss once,
        speaks-first is_dissent symbolic ss once,
        speaks-first is_dissent temporal ss once,
      ))

-- With one signal to a channel, `authorise` decides, and it authorises exactly if no channel
-- dissents and every channel that the gate requires affirms.
pub authorise_iff :
    (gate : RefutationGate) (ss : List ChannelSignal)
    → Distinct (channels ss)
    → (d : GateDecision) × (authorise gate ss ≡ some d)
      × ((d.outcome ≡ authorised) ↔ (
          (any (λ s. is_dissent s.stance) ss ≡ false)
          × ((c : GateChannel) → gate.required c ≡ true → speaks is_affirm c ss ≡ true)))
unfolding authorise
authorise_iff gate ss once =
    let (t, e, seen) = collect-first ss (λ c. none) once (λ c m. refl) in
    let at : (c : GateChannel) → t c ≡ first ss c = λ c. keep_some (first ss c) (t c) (seen c) in
    let same = heard-first ss t once at in
    let what = decide_lem gate t in
    let affirms : (c : GateChannel) → holds is_affirm (t c) ≡ speaks is_affirm c ss =
      λ c. rw (at c) (sym (speaks-first is_affirm c ss once)) in
    (
      decide gate t,
      rw (e, authorise) refl,
      (
        λ o.
            let yes = (outcome_iff (decide gate t).outcome).0 o in
            let quiet : heard t is_dissent ≡ false = ground arith in
            (
              sym same ∙ quiet,
              λ c r.
                  sym (affirms c)
                  ∙ sym (met_affirms gate t c quiet r)
                  ∙ met_all gate t c (ground arith),
            ),
        λ h.
            let free = λ (c : GateChannel). met_free gate t c (λ r. affirms c ∙ h.1 c r) in
            (outcome_iff (decide gate t).outcome).1
              (ground (arith, h.0, free llm, free symbolic, free temporal)),
      ),
    )

-- A channel with two signals is refused, and nothing else is.
pub authorise_refuses :
    (gate : RefutationGate) (ss : List ChannelSignal)
    → (authorise gate ss ≡ none) ↔ ¬ Distinct (channels ss)
unfolding authorise
authorise_refuses gate ss = (
  λ e once. let (d, e', is) = authorise_iff gate ss once in cc,
  λ twice. elim (Option-cases (collect ss (λ c. none))) [
    | inl fails ↦ rw (fails, authorise) refl
    | inr (t, works) ↦ absurd (twice (collect-none ss (λ c. none) t works).0)
  ],
)
