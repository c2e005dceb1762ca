-- ===== src/TruthMaintenance/Recompute/Seed.antt =====
-- What the seeding of the recompute marks, and how much fuel it leaves to be spent.
use iknos.Prelude.{
  ℕ, ◌+◌, ◌≤◌, ◌≡◌, refl, true, false, inl, inr, List, [], ◌∷◌, some, arith, contains, Distinct,
  ◌==◌, if◌then◌else◌, Bool-cases, length,
}
use iknos.TruthMaintenance.Graph.{NodeId, Derivation}
use iknos.TruthMaintenance.Entries.{Entry, find, ids, contains-ids}
use iknos.TruthMaintenance.Front.{Front, mark}
use iknos.TruthMaintenance.Front.Fuel.{potential, mark_grows, potential-mark, potential-mark-le}
use iknos.TruthMaintenance.Recompute.{mark_facts, mark_axioms}

mark_marks : (n : NodeId) (f : Front) → contains (mark n f).supported n ≡ true
unfolding mark contains
mark_marks n f = ground arith

pub mark_facts_grows :
    (facts : List NodeId) (f : Front) (x : NodeId)
    → contains f.supported x ≡ true
    → contains (mark_facts facts f).supported x ≡ true
unfolding mark_facts
mark_facts_grows [] f x h = h
mark_facts_grows (n ∷ facts) f x h = mark_facts_grows facts (mark n f) x (mark_grows [] n x f h)

pub mark_facts_marks :
    (facts : List NodeId) (f : Front) (x : NodeId)
    → contains facts x ≡ true
    → contains (mark_facts facts f).supported x ≡ true
unfolding mark_facts contains
mark_facts_marks [] f x h = cc
mark_facts_marks (n ∷ facts) f x h = elim (Bool-cases (n == x)) [
  | inl same ↦
      let e : n ≡ x = ground arith in
      mark_facts_grows facts (mark n f) x (rw (← e) (mark_marks n f))
  | inr other ↦ mark_facts_marks facts (mark n f) x (ground arith)
]

pub mark-remaining : (n : NodeId) (f : Front) (i : ℕ) → (mark n f).remaining i ≡ f.remaining i
unfolding mark
mark-remaining n f i = ground arith

-- the body of the loop over the axioms
abbrev pub fire : ℕ → Derivation → Front → Front
fire i d f = if f.remaining i == 0 then mark d.conclusion f else f

pub mark_axioms_grows :
    (es : List Entry) (f : Front) (x : NodeId)
    → contains f.supported x ≡ true
    → contains (mark_axioms es f).supported x ≡ true
unfolding mark_axioms
mark_axioms_grows [] f x h = h
mark_axioms_grows ((i, d) ∷ es) f x h =
    mark_axioms_grows es (fire i d f) x (ground (arith, mark_grows [] d.conclusion x f h))

pub mark_axioms_marks :
    (es : List Entry) (f : Front) (i : ℕ) (d : Derivation)
    → find es i ≡ some d
    → f.remaining i ≡ 0
    → contains (mark_axioms es f).supported d.conclusion ≡ true
unfolding mark_axioms find
mark_axioms_marks [] f i d h z = cc
mark_axioms_marks ((j, e) ∷ es) f i d h z = elim (Bool-cases (j == i)) [
  | inl same ↦
      let e' : j ≡ i = ground arith in
      let rule : e ≡ d = ground arith in
      mark_axioms_grows es (fire j e f) d.conclusion
        (rw (← rule) (ground (arith, mark_marks e.conclusion f)))
  | inr other ↦
      mark_axioms_marks es (fire j e f) i d (ground arith)
        (ground (arith, mark-remaining e.conclusion f i))
]

pub mark_axioms-remaining :
    (es : List Entry) (f : Front) (i : ℕ) → (mark_axioms es f).remaining i ≡ f.remaining i
unfolding mark_axioms
mark_axioms-remaining [] f i = refl
mark_axioms-remaining ((j, e) ∷ es) f i =
    ground (arith, mark_axioms-remaining es (fire j e f) i, mark-remaining e.conclusion f i)

pub potential-mark_facts :
    (es : List Entry) (facts : List NodeId) (f : Front)
    → potential es (mark_facts facts f) ≤ length facts + potential es f
unfolding mark_facts
potential-mark_facts es [] f = omega arith
potential-mark_facts es (n ∷ facts) f =
    omega (arith, potential-mark_facts es facts (mark n f), potential-mark-le es n f)

module _ (es : List Entry) where
  -- the rules of `part` stand in `es` under the same numbers
  abbrev pub Within : List Entry → Type 0
  Within part = (i : ℕ) (d : Derivation) → find part i ≡ some d → find es i ≡ some d

  pub Within-head :
      (i : ℕ) (d : Derivation) (part : List Entry) → Within ((i, d) ∷ part) → find es i ≡ some d
  unfolding find
  Within-head i d part w = w i d (ground arith)

  pub Within-tail :
      (i : ℕ) (d : Derivation) (part : List Entry)
      → contains (ids part) i ≡ false
      → Within ((i, d) ∷ part)
      → Within part
  unfolding find
  Within-tail i d part k w j e h = w j e (ground (arith, contains-ids part j e h))

  pub potential-mark_axioms :
      (part : List Entry) (f : Front)
      → Distinct (ids part)
      → Within part
      → potential es (mark_axioms part f) ≤ potential es f
  unfolding mark_axioms ids
  potential-mark_axioms [] f k w = omega arith
  potential-mark_axioms ((i, d) ∷ part) f k w =
      let rest = potential-mark_axioms part (fire i d f) k.1 (Within-tail i d part k.0 w) in
      ground (arith, potential-mark es i d f (Within-head i d part w))
