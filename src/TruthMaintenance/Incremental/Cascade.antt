-- ===== src/TruthMaintenance/Incremental/Cascade.antt =====
-- The cascade of the incremental oracle is the forward propagation of the recompute, and keeps the
-- support counts exact.
pub mod Exact
use iknos.Prelude.{
  ℕ, zero, suc, ◌+◌, ◌-◌, ◌≡◌, ◌≢◌, refl, ap, ◌∙◌, Bool, true, false, ◌&&◌, inl, inr, List, [], ◌∷◌,
  ◌++◌, Option, none, some, arith, contains, Distinct, ◌==◌, if◌then◌else◌, Bool-cases, List-cases,
  one_if, unmet_of,
}
use iknos.TruthMaintenance.Graph.{NodeId, Derivation}
use iknos.TruthMaintenance.Entries.{
  Entry, contains-ids, find, not-find, head_of, ids, ids_using, ids_using-Distinct, find-ids_using,
}
use iknos.TruthMaintenance.Front.{Front, update, mark, revisit, revisit_all, expand, propagate}
use iknos.TruthMaintenance.Front.Laws.{
  Inv, Closed, Inv-revisit, Closed-revisit, Inv-expand, head_of-find,
}
use iknos.TruthMaintenance.Incremental.State.{Counted, credit, visit, visit_all, cascade}

pub front-visit :
    (es : List Entry) (i : ℕ) (c : Counted) → (visit es i c).front ≡ revisit es i c.front
unfolding visit revisit
front-visit es i c = elim (Bool-cases (c.front.remaining i - 1 == 0)) [
  | inl last ↦ rw last
  | inr more ↦ rw more
]

pub front-visit_all :
    (es : List Entry) (is : List ℕ) (c : Counted)
    → (visit_all es is c).front ≡ revisit_all es is c.front
unfolding visit_all revisit_all
front-visit_all es [] c = refl
front-visit_all es (i ∷ is) c =
    front-visit_all es is (visit es i c) ∙ ap (revisit_all es is) (front-visit es i c)

-- The front of the cascade is that of the recompute's loop.
pub front-cascade :
    (uses : NodeId → List ℕ) (es : List Entry) (fuel : ℕ) (c : Counted)
    → ((a : NodeId) → uses a ≡ ids_using a es)
    → (cascade uses es fuel c).front ≡ propagate es fuel c.front
unfolding cascade propagate expand
front-cascade uses es zero c same = refl
front-cascade uses es (suc fuel) c same = elim (List-cases c.front.worklist) [
  | inl empty ↦ rw (empty, cascade, propagate)
  | inr (node, rest, e) ↦
      let popped = record c { front = record c.front { worklist = rest } } in
      rw (e, cascade, propagate)
        (rw (same node) (
          front-cascade uses es fuel (visit_all es (ids_using node es) popped) same
          ∙ ap (propagate es fuel) (front-visit_all es (ids_using node es) popped)))
]

-- The rules that conclude `x` and whose counter is at zero.
unfoldable pub fired : List Entry → (ℕ → ℕ) → NodeId → ℕ
fired [] unmet x = 0
fired ((i, d) ∷ es) unmet x = one_if (d.conclusion == x && unmet i == 0) + fired es unmet x

fired-update_absent :
    (es : List Entry) (unmet : ℕ → ℕ) (i v : ℕ) (x : NodeId)
    → contains (ids es) i ≡ false
    → fired es (update unmet i v) x ≡ fired es unmet x
unfolding fired ids contains update
fired-update_absent [] unmet i v x h = refl
fired-update_absent ((j, e) ∷ es) unmet i v x h = ground (arith, fired-update_absent es unmet i v x)

-- A counter that leaves a positive value changes the number of fired rules if it reaches zero.
pub fired-update :
    (es : List Entry) (unmet : ℕ → ℕ) (i v : ℕ) (x : NodeId) (d : Derivation)
    → Distinct (ids es)
    → find es i ≡ some d
    → unmet i ≢ 0
    → fired es (update unmet i v) x ≡ one_if (d.conclusion == x && v == 0) + fired es unmet x
unfolding fired ids find update
fired-update [] unmet i v x d k h p = cc
fired-update ((j, e) ∷ es) unmet i v x d k h p = elim (Bool-cases (j == i)) [
  | inl same ↦
      let e' : j ≡ i = ground arith in
      let absent : contains (ids es) i ≡ false = rw e' at k.0 in
      ground (arith, fired-update_absent es unmet i v x absent)
  | inr other ↦ ground (arith, fired-update es unmet i v x d k.1)
]

-- The support counts: a base fact counts one, and so does each rule that has fired.
abbrev pub Exact : List Entry → (NodeId → Bool) → Counted → Type 0
Exact es base c = (x : NodeId) → c.support_count x ≡ one_if (base x) + fired es c.front.remaining x

-- Counters that are at zero together, on the rules for `x`, count the same.
pub fired_cong :
    (es : List Entry) (unmet unmet' : ℕ → ℕ) (x : NodeId)
    → Distinct (ids es)
    → ((i : ℕ) (d : Derivation)
        → find es i ≡ some d
        → (d.conclusion == x) ≡ true
        → (unmet i == 0) ≡ (unmet' i == 0))
    → fired es unmet x ≡ fired es unmet' x
unfolding fired find ids
fired_cong [] unmet unmet' x k h = refl
fired_cong ((i, d) ∷ es) unmet unmet' x k h =
    let rest =
      fired_cong es unmet unmet' x k.1
        (λ j e found. h j e (ground (arith, contains-ids es j e found))) in
    elim (Bool-cases (d.conclusion == x)) [
      | inl same ↦ let now = h i d (ground arith) same in ground (arith, rest)
      | inr other ↦ ground (arith, rest)
    ]
