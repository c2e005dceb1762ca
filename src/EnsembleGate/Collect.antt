-- ===== src/EnsembleGate/Collect.antt =====
-- The dict of signals that `authorise` of core/ensemble_gate.py builds.
use iknos.Prelude.{
  ℕ, ◌≡◌, refl, ap, sym, ◌∙◌, inl, inr, Bool, true, false, ◌&&◌, Option, none, some, List, [], ◌∷◌,
  any, contains, Distinct, if◌then◌else◌, Bool-cases, Option-cases, arith,
}
use iknos.EnsembleGate.{
  GateChannel, llm, symbolic, temporal, ChannelStance, ChannelSignal, channel_order, same_channel,
  Table, put, collect,
}

-- the channels of the signals, as numbers
abbrev pub channels : List ChannelSignal → List ℕ
channels [] = []
channels (s ∷ ss) = channel_order s.channel ∷ channels ss

-- the first signal of a channel
abbrev pub first : List ChannelSignal → Table
first [] c = none
first (s ∷ ss) c = if same_channel s.channel c then some s else first ss c

abbrev pub or_else : Option ChannelSignal → Option ChannelSignal → Option ChannelSignal
or_else none b = b
or_else (some a) b = some a

-- some signal of channel `c` has a stance that passes a test
abbrev pub speaks : (ChannelStance → Bool) → GateChannel → List ChannelSignal → Bool
speaks p c ss = any (λ s. same_channel s.channel c && p s.stance) ss

abbrev pub holds : (ChannelStance → Bool) → Option ChannelSignal → Bool
holds p none = false
holds p (some s) = p s.stance

pub order_injective : (a b : GateChannel) → channel_order a ≡ channel_order b → a ≡ b
order_injective llm llm e = refl
order_injective llm symbolic e = absurd (omega arith)
order_injective llm temporal e = absurd (omega arith)
order_injective symbolic llm e = absurd (omega arith)
order_injective symbolic symbolic e = refl
order_injective symbolic temporal e = absurd (omega arith)
order_injective temporal llm e = absurd (omega arith)
order_injective temporal symbolic e = absurd (omega arith)
order_injective temporal temporal e = refl

pub not-first :
    (ss : List ChannelSignal) (c : GateChannel)
    → contains (channels ss) (channel_order c) ≡ false
    → first ss c ≡ none
unfolding contains
not-first [] c h = refl
not-first (s ∷ ss) c h = ground (arith, not-first ss c)

pub not-speaks :
    (p : ChannelStance → Bool) (c : GateChannel) (ss : List ChannelSignal)
    → contains (channels ss) (channel_order c) ≡ false
    → speaks p c ss ≡ false
unfolding contains
not-speaks p c [] h = refl
not-speaks p c (s ∷ ss) h = ground (arith, not-speaks p c ss)

pub put_same :
    (s : ChannelSignal) (t : Table) (c : GateChannel)
    → same_channel s.channel c ≡ true
    → put s t c ≡ some s
unfolding put
put_same s t c h = rw h refl

pub put_other :
    (s : ChannelSignal) (t : Table) (c : GateChannel)
    → same_channel s.channel c ≡ false
    → put s t c ≡ t c
unfolding put
put_other s t c h = rw h refl

-- what `collect` builds
pub collect-first :
    (ss : List ChannelSignal) (t : Table)
    → Distinct (channels ss)
    → ((c : GateChannel) → contains (channels ss) (channel_order c) ≡ true → t c ≡ none)
    → (t' : Table) × (collect ss t ≡ some t')
      × ((c : GateChannel) → t' c ≡ or_else (first ss c) (t c))
unfolding collect contains put
collect-first [] t once empty = (t, refl, λ c. refl)
collect-first (s ∷ ss) t once empty =
    let later : (c : GateChannel)
        → contains (channels ss) (channel_order c) ≡ true
        → put s t c ≡ none =
      λ c m. elim (Bool-cases (same_channel s.channel c)) [
        | inl same ↦
            let e : channel_order s.channel ≡ channel_order c = ground arith in
            let gone : contains (channels ss) (channel_order c) ≡ false = rw e at once.0 in
            ground arith
        | inr other ↦ put_other s t c other ∙ empty c (ground arith)
      ] in
    let (t', e, at) = collect-first ss (put s t) once.1 later in
    let new : t s.channel ≡ none = empty s.channel (ground arith) in
    (
      t',
      rw (new, collect) e,
      λ c. elim (Bool-cases (same_channel s.channel c)) [
        | inl same ↦
            let e : channel_order s.channel ≡ channel_order c = ground arith in
            let gone : contains (channels ss) (channel_order c) ≡ false = rw e at once.0 in
            rw (not-first ss c gone) at (at c) ∙ rw same refl
        | inr other ↦ rw other (at c ∙ ap (or_else (first ss c)) (put_other s t c other))
      ],
    )

-- a repeated channel is refused
pub collect-none :
    (ss : List ChannelSignal) (t : Table) (t' : Table)
    → collect ss t ≡ some t'
    → Distinct (channels ss)
      × ((c : GateChannel) → contains (channels ss) (channel_order c) ≡ true → t c ≡ none)
unfolding collect contains put
collect-none [] t t' e = (tt, λ c m. cc)
collect-none (s ∷ ss) t t' e = elim (Option-cases (t s.channel)) [
  | inl new ↦
      let e' : collect ss (put s t) ≡ some t' = rw (new, collect) at e in
      let (once, empty) = collect-none ss (put s t) t' e' in
      (
        (
          elim (Bool-cases (contains (channels ss) (channel_order s.channel))) [
            | inl twice ↦
                let a = empty s.channel twice in let b = put_same s t s.channel (ground arith) in cc
            | inr apart ↦ apart
          ],
          once,
        ),
        λ c m. elim (Bool-cases (same_channel s.channel c)) [
          | inl same ↦ rw (← order_injective s.channel c (ground arith)) new
          | inr other ↦ sym (put_other s t c other) ∙ empty c (ground arith)
        ],
      )
  | inr (old, there) ↦ absurd (let e' = rw (there, collect) at e in cc)
]

pub speaks-first :
    (p : ChannelStance → Bool) (c : GateChannel) (ss : List ChannelSignal)
    → Distinct (channels ss)
    → speaks p c ss ≡ holds p (first ss c)
unfolding contains
speaks-first p c [] once = refl
speaks-first p c (s ∷ ss) once = elim (Bool-cases (same_channel s.channel c)) [
  | inl same ↦
      let e : channel_order s.channel ≡ channel_order c = ground arith in
      let gone : contains (channels ss) (channel_order c) ≡ false = rw e at once.0 in
      rw same (ground (arith, not-speaks p c ss gone))
  | inr other ↦ rw other (speaks-first p c ss once.1)
]
