-- ===== src/TruthMaintenance/Front/Fuel.antt =====
-- The propagation ends: each round takes a node off the queue, and only a rule whose conclusion
-- was not supported can put one on it.
use iknos.Prelude.{
  ℕ, zero, suc, ◌+◌, ◌-◌, ◌≤◌, ◌<◌, ◌≡◌, Bool, true, false, ◌||◌, inl, inr, List, [], ◌∷◌, some,
  arith, contains, Distinct, ◌==◌, if◌then◌else◌, Bool-cases, List-cases, length, length-append, ap,
  ◌∙◌, unmet_of_none, unmet_of_cong, unmet_of,
}
use iknos.TruthMaintenance.Graph.{NodeId, Derivation, Supported, fact, derived}
use iknos.TruthMaintenance.Entries.{
  Entry, find, ids, ids_using, find-ids_using, rules, InRules-find,
}
use iknos.TruthMaintenance.Front.{Front, mark, revisit, revisit_all, expand, propagate}
use iknos.TruthMaintenance.Front.Laws.{Inv, Closed, Inv-expand, head_of-find}

-- the rules whose conclusion is not yet supported
unfoldable pub pending : List Entry → List NodeId → ℕ
pending [] s = 0
pending ((i, d) ∷ es) s =
    let rest = pending es s in if contains s d.conclusion then rest else suc rest

pending_mono : (es : List Entry) (s : List NodeId) (n : NodeId) → pending es (n ∷ s) ≤ pending es s
unfolding pending contains
pending_mono [] s n = omega arith
pending_mono ((i, d) ∷ es) s n = ground (arith, pending_mono es s n)

pub pending-le-length : (es : List Entry) (s : List NodeId) → pending es s ≤ length es
unfolding pending
pending-le-length [] s = omega arith
pending-le-length ((i, d) ∷ es) s = ground (arith, pending-le-length es s)

pending_less :
    (es : List Entry) (s : List NodeId) (i : ℕ) (d : Derivation)
    → find es i ≡ some d
    → contains s d.conclusion ≡ false
    → pending es (d.conclusion ∷ s) < pending es s
unfolding pending contains find
pending_less [] s i d h new = cc
pending_less ((j, e) ∷ es) s i d h new =
    ground (arith, pending_less es s i d, pending_mono es s d.conclusion)

abbrev pub potential : List Entry → Front → ℕ
potential es f = length f.worklist + pending es f.supported

-- a mark adds at most one node to the queue
pub potential-mark-le :
    (es : List Entry) (n : NodeId) (f : Front) → potential es (mark n f) ≤ suc (potential es f)
unfolding mark
potential-mark-le es n f =
    ground (arith, pending_mono es f.supported n, length-append f.worklist (n ∷ []))

module _ (es : List Entry) where
  pub potential-mark :
      (i : ℕ) (d : Derivation) (f : Front)
      → find es i ≡ some d
      → potential es (mark d.conclusion f) ≤ potential es f
  unfolding mark
  potential-mark i d f h =
      ground
        (arith, pending_less es f.supported i d h, length-append f.worklist (d.conclusion ∷ []))

  potential-revisit :
      (i : ℕ) (d : Derivation) (f : Front)
      → find es i ≡ some d
      → potential es (revisit es i f) ≤ potential es f
  unfolding revisit
  potential-revisit i d f h = elim (Bool-cases (f.remaining i - 1 == 0)) [
    | inl last ↦ rw (last, head_of-find es i d h) (potential-mark i d _ h)
    | inr more ↦ rw more (omega arith)
  ]

  potential-revisit_all :
      (todo : List ℕ) (f : Front)
      → ((i : ℕ) → contains todo i ≡ true → (d : Derivation) × (find es i ≡ some d))
      → potential es (revisit_all es todo f) ≤ potential es f
  unfolding revisit_all contains
  potential-revisit_all [] f known = omega arith
  potential-revisit_all (i ∷ todo) f known =
      let (d, h) = known i (ground arith) in
      omega (
        arith,
        potential-revisit i d f h,
        potential-revisit_all todo (revisit es i f) (λ j m. known j (ground arith)),
      )

  potential-expand :
      (node : NodeId) (rest : List NodeId) (f : Front)
      → f.worklist ≡ node ∷ rest
      → potential es (expand es node rest f) < potential es f
  unfolding expand
  potential-expand node rest f queue = omega (
    arith,
    ap length queue,
    potential-revisit_all (ids_using node es) (record f { worklist = rest })
        (find-ids_using node es),
  )

  -- what is supported stays so
  pub mark_grows :
      (n x : NodeId) (f : Front)
      → contains f.supported x ≡ true
      → contains (mark n f).supported x ≡ true
  unfolding mark contains
  mark_grows n x f h = ground arith

  revisit_grows :
      (i : ℕ) (x : NodeId) (f : Front)
      → contains f.supported x ≡ true
      → contains (revisit es i f).supported x ≡ true
  unfolding revisit contains
  revisit_grows i x f h = ground arith

  revisit_all_grows :
      (todo : List ℕ) (x : NodeId) (f : Front)
      → contains f.supported x ≡ true
      → contains (revisit_all es todo f).supported x ≡ true
  unfolding revisit_all
  revisit_all_grows [] x f h = h
  revisit_all_grows (i ∷ todo) x f h =
      revisit_all_grows todo x (revisit es i f) (revisit_grows i x f h)

  pub propagate_grows :
      (fuel : ℕ) (x : NodeId) (f : Front)
      → contains f.supported x ≡ true
      → contains (propagate es fuel f).supported x ≡ true
  unfolding propagate expand
  propagate_grows zero x f h = h
  propagate_grows (suc fuel) x f h = elim (List-cases f.worklist) [
    | inl empty ↦ rw (empty, propagate) h
    | inr (node, rest, e) ↦
        rw (e, propagate)
          (propagate_grows fuel x (expand es node rest f)
            (revisit_all_grows (ids_using node es) x (record f { worklist = rest }) h))
  ]

module _ (es : List Entry) (keys : Distinct (ids es)) (P : NodeId → Type 0)
    (rule : (i : ℕ) (d : Derivation)
      → find es i ≡ some d
      → ((a : NodeId) → contains d.body a ≡ true → P a)
      → P d.conclusion) where
  -- The end of the propagation: the queue is empty, and the invariants hold.
  pub record Settled (f : Front) : Type 0 where
    pub delivered : NodeId → Bool
    pub inv : Inv es keys P rule delivered [] f
    pub closed : Closed es keys P rule f
    pub empty : f.worklist ≡ []

  -- With enough fuel the propagation settles.
  pub propagate-Settled :
      (fuel : ℕ) (delivered : NodeId → Bool) (f : Front)
      → Inv es keys P rule delivered [] f
      → Closed es keys P rule f
      → potential es f ≤ fuel
      → Settled (propagate es fuel f)
  unfolding propagate
  propagate-Settled zero delivered f v c h = record {
    delivered = delivered;
    inv = v;
    closed = c;
    empty = elim (List-cases f.worklist) [
      | inl empty ↦ empty
      | inr (node, rest, e) ↦ absurd (omega (arith, ap length e))
    ];
  }
  propagate-Settled (suc fuel) delivered f v c h = elim (List-cases f.worklist) [
    | inl empty ↦
        rw (empty, propagate) (record { delivered = delivered; inv = v; closed = c; empty = empty })
    | inr (node, rest, e) ↦
        let (v', c') = Inv-expand es keys P rule delivered node rest f e v c in
        rw (e, propagate)
          (propagate-Settled fuel (λ x. delivered x || node == x) (expand es node rest f) v' c'
            (omega (arith, potential-expand es node rest f e)))
  ]

  Settled-delivered :
      (f : Front) (s : Settled f) (x : NodeId) → s.delivered x ≡ contains f.supported x
  unfolding contains
  Settled-delivered f s x =
      let e : contains f.worklist x ≡ false = rw s.empty in ground (arith, s.inv.splits x)

  -- a settled counter is the number of antecedents that are not supported
  pub Settled-remaining :
      (f : Front) (i : ℕ) (d : Derivation)
      → Settled f
      → find es i ≡ some d
      → f.remaining i ≡ unmet_of (contains f.supported) d.body
  unfolding contains
  Settled-remaining f i d s found = omega (
    arith,
    s.inv.counts i d found,
    unmet_of_cong s.delivered (contains f.supported) d.body (λ a m. Settled-delivered f s a),
  )

  -- A settled front that holds the base facts is closed under the rules.
  pub Settled-complete :
      (base : NodeId → Bool) (f : Front)
      → Settled f
      → ((x : NodeId) → base x ≡ true → contains f.supported x ≡ true)
      → {x : NodeId} → Supported base (rules es) x
      → contains f.supported x ≡ true
  unfolding contains
  Settled-complete base f s grounds (fact b) = grounds _ b
  Settled-complete base f s grounds (derived d m body) =
      let (i, found) = InRules-find es d keys m in
      let reached = λ (a : NodeId) (h : contains d.body a ≡ true).
        Settled-delivered f s a ∙ Settled-complete base f s grounds (body a h) in
      s.closed i d found
        (ground (arith, s.inv.counts i d found, unmet_of_none s.delivered d.body reached))
