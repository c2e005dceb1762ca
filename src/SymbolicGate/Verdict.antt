-- ===== src/SymbolicGate/Verdict.antt =====
-- What the verdict of core/symbolic_gate.py says of the sub-region, and of the gate that it feeds.
pub mod Solver
use iknos.Prelude.{
  ℕ, sym, ◌∙◌, any, suc, ◌*◌, ◌≡◌, refl, ◌↔◌, inl, inr, Bool, true, false, not, Option, none, some,
  List, [], ◌∷◌, ◌++◌, contains, if◌then◌else◌, Bool-cases, arith,
}
use iknos.TruthMaintenance.Graph.{NodeId, Derivation, DerivationGraph, Supported}
use iknos.EnsembleGate.{
  SignedJudgment, ChannelSignal, symbolic, temporal, authorised, GateDecision, default_gate,
  is_affirm, is_dissent,
}
use iknos.EnsembleGate.Panel.{authorise_from_panel}
use iknos.EnsembleGate.Panel.Verdict.{Tagged, refuted_by, authorise_from_panel-default}
use iknos.SymbolicGate.Conflicts.{lit_nodes, lit_derivations, Clash, Conflict}
use iknos.SymbolicGate.Meaning.{Clash-Conflict, all_named-append, keys_of-append, query-Keyed}
use iknos.SymbolicGate.Interning.{
  all_named, rules_named, keys_of, rule_keys, query_keys, encode_lem, mentions, related-mentions,
}
use iknos.SymbolicGate.{
  Atom, Lit, LitRule, SymbolicQuery, Consistency, contradictory, consistent, unrelated,
  indeterminate, Encoded, encode, check_consistency, symbolic_channel_for, verdict_signal, audit,
}

-- the Horn program of literals and rules
abbrev pub program : List Lit → List LitRule → DerivationGraph
program facts rules = record { base_facts = lit_nodes facts; derivations = lit_derivations rules }

-- The documented behaviour of the solver: a Horn program has its least model as its only answer
-- set, which the integrity constraint rejects exactly if it asserts and denies a claim.
abbrev pub Answers : (List Lit → List LitRule → Bool) → Type 0
Answers satisfiable =
    (facts : List Lit) (rules : List LitRule)
    → (satisfiable facts rules ≡ false) ↔ Clash facts rules

-- the cascade of tests, on the answers to the two questions and the relatedness
abbrev verdict_of : Bool → Bool → Bool → Consistency
verdict_of alone related together =
    if not alone
    then indeterminate
    else if not related
    then unrelated
    else if together
    then consistent
    else contradictory

verdict_contradictory :
    (a r t : Bool) → (verdict_of a r t ≡ contradictory) ↔ ((a ≡ true) × (r ≡ true) × (t ≡ false))
verdict_contradictory false r t = (λ e. cc, λ h. cc)
verdict_contradictory true false t = (λ e. cc, λ h. cc)
verdict_contradictory true true true = (λ e. cc, λ h. cc)
verdict_contradictory true true false = (λ e. (refl, refl, refl), λ h. refl)

verdict_consistent :
    (a r t : Bool) → (verdict_of a r t ≡ consistent) ↔ ((a ≡ true) × (r ≡ true) × (t ≡ true))
verdict_consistent false r t = (λ e. cc, λ h. cc)
verdict_consistent true false t = (λ e. cc, λ h. cc)
verdict_consistent true true false = (λ e. cc, λ h. cc)
verdict_consistent true true true = (λ e. (refl, refl, refl), λ h. refl)

affirms-contradictory :
    (c : Consistency) → is_affirm (verdict_signal c (audit c)).stance ≡ true → c ≡ contradictory
affirms-contradictory contradictory h = refl
affirms-contradictory consistent h = cc
affirms-contradictory unrelated h = cc
affirms-contradictory indeterminate h = cc

signal-symbolic : (c : Consistency) → (verdict_signal c (audit c)).channel ≡ symbolic
signal-symbolic contradictory = refl
signal-symbolic consistent = refl
signal-symbolic unrelated = refl
signal-symbolic indeterminate = refl

module _ (satisfiable : List Lit → List LitRule → Bool) (answers : Answers satisfiable)
    (q : SymbolicQuery) where
  abbrev e : Encoded
  e = encode q

  free :
      (facts : List Lit) (rules : List LitRule)
      → (satisfiable facts rules ≡ true) ↔ (¬ Clash facts rules)
  free facts rules = (
    λ h clash. let no = (answers facts rules).1 clash in cc,
    λ h. elim (Bool-cases (satisfiable facts rules)) [
      | inl sat ↦ sat
      | inr unsat ↦ absurd (h ((answers facts rules).0 unsat))
    ],
  )

  abbrev alone : Bool
  alone = satisfiable e.base_lits e.rule_lits

  abbrev together : Bool
  together = satisfiable (e.base_lits ++ e.refuter_lits) e.rule_lits

  -- On the encoded query, a refutation is contradictory exactly if the sub-region alone has no clash, the refuter shares
  -- a key with it, and the two together clash; it is consistent exactly if they do not.
  check_consistency_encoded :
      ((check_consistency satisfiable q ≡ contradictory) ↔ (
        (¬ Clash e.base_lits e.rule_lits)
        × (e.related ≡ true)
        × Clash (e.base_lits ++ e.refuter_lits) e.rule_lits))
      × ((check_consistency satisfiable q ≡ consistent) ↔ (
          (¬ Clash e.base_lits e.rule_lits)
          × (e.related ≡ true)
          × (¬ Clash (e.base_lits ++ e.refuter_lits) e.rule_lits)))
  unfolding check_consistency
  check_consistency_encoded =
      let against = verdict_contradictory alone e.related together in
      let with_it = verdict_consistent alone e.related together in
      let base = free e.base_lits e.rule_lits in
      let both = free (e.base_lits ++ e.refuter_lits) e.rule_lits in
      let clash = answers (e.base_lits ++ e.refuter_lits) e.rule_lits in
      (
        (
          λ v. let (a, r, t) = against.0 v in (base.0 a, r, clash.0 t),
          λ h. against.1 (base.1 h.0, h.1, clash.1 h.2),
        ),
        (
          λ v. let (a, r, t) = with_it.0 v in (base.0 a, r, both.0 t),
          λ h. with_it.1 (base.1 h.0, h.1, both.1 h.2),
        ),
      )

  abbrev region : List Atom
  region = q.hypothesis ++ q.context

  abbrev refuted_region : List Atom
  refuted_region = region ++ q.refuter

  -- the encoded sub-region, alone and with the refuter, clashes exactly if its claims conflict
  Clash-alone : Clash e.base_lits e.rule_lits ↔ Conflict region q.rules
  Clash-alone =
      let (ids, base, rules, refuter, apart) = encode_lem q in
      rw (base, rules)
        (Clash-Conflict ids (query_keys q) apart region q.rules
          (query-Keyed ids q apart region (λ k h. ground arith)))

  Clash-together :
      Clash (e.base_lits ++ e.refuter_lits) e.rule_lits ↔ Conflict refuted_region q.rules
  Clash-together =
      let (ids, base, rules, refuter, apart) = encode_lem q in
      rw (base, rules, refuter, sym (all_named-append ids region q.refuter))
        (Clash-Conflict ids (query_keys q) apart refuted_region q.rules (
          query-Keyed ids q apart refuted_region
            (λ k h. sym (keys_of-append region q.refuter k) ∙ h)))

  -- A refutation is contradictory exactly if the claims of the sub-region alone do not conflict under
  -- the rules, a claim of the refuter has a key that the sub-region mentions, and the claims of the
  -- two together conflict; it is consistent exactly if these do not.
  pub check_consistency_iff :
      ((check_consistency satisfiable q ≡ contradictory) ↔ (
        (¬ Conflict region q.rules)
        × (any (λ a. mentions q a.key) q.refuter ≡ true)
        × Conflict refuted_region q.rules))
      × ((check_consistency satisfiable q ≡ consistent) ↔ (
          (¬ Conflict region q.rules)
          × (any (λ a. mentions q a.key) q.refuter ≡ true)
          × (¬ Conflict refuted_region q.rules)))
  check_consistency_iff =
      let (against, with_it) = check_consistency_encoded in
      let alone = Clash-alone in
      let both = Clash-together in
      let related = related-mentions q in
      (
        (
          λ v.
              let (free_of, r, clash) = against.0 v in
              (λ c. free_of (alone.1 c), sym related ∙ r, both.0 clash),
          λ (free_of, r, c). against.1 (λ k. free_of (alone.0 k), related ∙ r, both.1 c),
        ),
        (
          λ v.
              let (free_of, r, no_clash) = with_it.0 v in
              (λ c. free_of (alone.1 c), sym related ∙ r, λ c. no_clash (both.1 c)),
          λ (free_of, r, no_conflict).
              with_it.1 (λ k. free_of (alone.0 k), related ∙ r, λ k. no_conflict (both.0 k)),
        ),
      )

  -- Under the default gate, with this check as the symbolic channel, an authorised flip rests on a
  -- stable refutation by the panel and on a clash that the refuter brings to a sub-region without
  -- one.
  pub authorised-Clash :
      (js : List SignedJudgment) (h : Option NodeId) (time : Option ChannelSignal)
      → Tagged temporal time
      → (d : GateDecision)
      → authorise_from_panel js h (some (symbolic_channel_for satisfiable q)) time default_gate
        ≡ some d
      → d.outcome ≡ authorised
      → (refuted_by h js ≡ true)
        × (¬ Clash e.base_lits e.rule_lits)
        × Clash (e.base_lits ++ e.refuter_lits) e.rule_lits
  unfolding symbolic_channel_for
  authorised-Clash js h time tagged d returned o =
      let verdict = check_consistency satisfiable q in
      let (d', again, iff) =
        authorise_from_panel-default js h (some (symbolic_channel_for satisfiable q)) time
          (signal-symbolic verdict) tagged in
      let same : d' ≡ d = cc in
      let (panel, affirms, quiet) = iff.0 (rw same o) in
      let (a, r, clash) = check_consistency_encoded.0.0 (affirms-contradictory verdict affirms) in
      (panel, a, clash)
