-- ===== src/TruthMaintenance/Recompute/Correct.antt =====
-- The recompute answers with the least fixpoint of the rules over the base facts.
use iknos.Prelude.{
  ◌≤◌, ◌≡◌, refl, ◌↔◌, true, false, inl, inr, List, [], ◌∷◌, some, arith, contains, contains-sorted,
  Distinct, ◌==◌, Bool-cases, sorted, unmet_of_zero, unmet_of_all,
}
use iknos.TruthMaintenance.Graph.{NodeId, DerivationGraph, Supported, fact}
use iknos.TruthMaintenance.Entries.{
  Entry, enumerate, enumerate-Distinct, find, ids, rules-enumerate,
}
use iknos.TruthMaintenance.Founded.{Founded, founded_rule, Rule}
use iknos.TruthMaintenance.Front.{Front, mark, propagate}
use iknos.TruthMaintenance.Front.Laws.{Inv, Inv-mark, Closed}
use iknos.TruthMaintenance.Front.Fuel.{
  potential, pending-le-length, Settled, propagate-Settled, Settled-complete, propagate_grows,
}
use iknos.TruthMaintenance.Recompute.{
  initial, mark_facts, mark_axioms, seeded, enough, well_founded_support,
}
use iknos.TruthMaintenance.Recompute.Seed.{
  mark_facts_marks, mark_axioms_grows, mark_axioms_marks, mark_axioms-remaining, fire, Within,
  Within-head, Within-tail, potential-mark_facts, potential-mark_axioms,
}

module _ (es : List Entry) (keys : Distinct (ids es)) (base : List NodeId) where
  abbrev Good : NodeId → Type 0
  Good = Founded es base

  abbrev good_rule : Rule es Good
  good_rule = founded_rule es base

  abbrev Sound : Front → Type 0
  Sound = Inv es keys Good good_rule (λ _. false) []

  Sound-initial : Sound (initial es)
  unfolding initial contains
  Sound-initial = record {
    splits = λ x. refl;
    apart = λ x h. refl;
    fresh = tt;
    counts = λ i d found. rw found (ground (arith, unmet_of_all d.body));
    sound = λ x h. cc;
  }

  Sound-mark_facts :
      (facts : List NodeId) (f : Front)
      → ((x : NodeId) → contains facts x ≡ true → contains base x ≡ true)
      → Sound f
      → Sound (mark_facts facts f)
  unfolding mark_facts contains
  Sound-mark_facts [] f sub v = v
  Sound-mark_facts (n ∷ facts) f sub v =
      Sound-mark_facts facts (mark n f) (λ x h. sub x (ground arith))
        (Inv-mark es keys Good good_rule (λ _. false) [] n f (fact (sub n (ground arith))) v)

  Sound-mark_axioms :
      (part : List Entry) (f : Front)
      → Distinct (ids part)
      → Within es part
      → Sound f
      → Sound (mark_axioms part f)
  unfolding mark_axioms ids contains
  Sound-mark_axioms [] f k w v = v
  Sound-mark_axioms ((i, d) ∷ part) f k w v =
      Sound-mark_axioms part (fire i d f) k.1 (Within-tail es i d part k.0 w)
        (elim (Bool-cases (f.remaining i == 0)) [
          | inl axiom_rule ↦ rw axiom_rule (
              Inv-mark es keys Good good_rule (λ _. false) [] d.conclusion f
                (good_rule i d found (λ a m. absurd (no_body axiom_rule a m))) v)
          | inr more ↦ rw more v
        ])
    where
      found : find es i ≡ some d
      found = Within-head es i d part w

      no_body : (f.remaining i == 0) ≡ true → (a : NodeId) → contains d.body a ≡ true → ⊥
      no_body z a m =
          let never = unmet_of_zero (λ _. false) d.body a (ground (arith, v.counts i d found)) m in
          cc never

  Sound-seeded : Sound (seeded es base)
  unfolding seeded
  Sound-seeded =
      Sound-mark_axioms es _ keys (λ i d h. h)
        (Sound-mark_facts (sorted base) (initial es) (λ x h. ground (arith, contains-sorted base x))
          Sound-initial)

  Closed-seeded : Closed es keys Good good_rule (seeded es base)
  unfolding seeded
  Closed-seeded i d found z =
      let before = mark_facts (sorted base) (initial es) in
      mark_axioms_marks es before i d found (ground (arith, mark_axioms-remaining es before i))

  seeded_facts :
      (x : NodeId) → contains base x ≡ true → contains (seeded es base).supported x ≡ true
  unfolding seeded
  seeded_facts x h =
      mark_axioms_grows es _ x
        (mark_facts_marks (sorted base) (initial es) x (ground (arith, contains-sorted base x)))

  potential-seeded : potential es (seeded es base) ≤ enough es base
  unfolding seeded enough initial
  potential-seeded = omega (
    arith,
    potential-mark_axioms es es (mark_facts (sorted base) (initial es)) keys (λ i d h. h),
    potential-mark_facts es (sorted base) (initial es),
    pending-le-length es [],
  )

  Settled-recompute :
      Settled es keys Good good_rule (propagate es (enough es base) (seeded es base))
  Settled-recompute =
      propagate-Settled es keys Good good_rule (enough es base) (λ _. false) (seeded es base)
        Sound-seeded Closed-seeded potential-seeded

  recompute_iff :
      (x : NodeId)
      → (contains (propagate es (enough es base) (seeded es base)).supported x ≡ true) ↔ Good x
  recompute_iff x = (
    Settled-recompute.inv.sound x,
    Settled-complete es keys Good good_rule (contains base) _ Settled-recompute
        (λ y h. propagate_grows es (enough es base) y (seeded es base) (seeded_facts y h)),
  )

-- The answer contains exactly the nodes of the least fixpoint: the base facts closed under the
-- rules, on graphs with and without cycles.
pub well_founded_support-iff-Supported :
    (g : DerivationGraph) (x : NodeId)
    → (contains (well_founded_support g) x ≡ true)
      ↔ Supported (contains g.base_facts) g.derivations x
unfolding well_founded_support
well_founded_support-iff-Supported g x =
    rw rules-enumerate at (
      recompute_iff (enumerate 0 g.derivations) (enumerate-Distinct 0 g.derivations) g.base_facts x)
