-- ===== src/TruthMaintenance/Incremental/Cascade/Exact.antt =====
-- The cascade keeps the support counts exact.
use iknos.Prelude.{
  ℕ, zero, suc, ◌-◌, ◌≡◌, ◌≢◌, Bool, true, ◌||◌, inl, inr, List, [], ◌∷◌, some, arith, contains,
  Distinct, ◌==◌, Bool-cases, List-cases,
}
use iknos.TruthMaintenance.Graph.{NodeId, Derivation}
use iknos.TruthMaintenance.Entries.{Entry, find, ids, ids_using, ids_using-Distinct, find-ids_using}
use iknos.TruthMaintenance.Front.{mark, expand}
use iknos.TruthMaintenance.Front.Laws.{
  Inv, Closed, Inv-revisit, Inv-expand, Inv-popped, head_of-find,
}
use iknos.TruthMaintenance.Incremental.State.{Counted, credit, visit, visit_all, cascade}
use iknos.TruthMaintenance.Incremental.Cascade.{Exact, fired-update, front-visit, front-visit_all}

module _ (es : List Entry) (keys : Distinct (ids es)) (P : NodeId → Type 0)
    (rule : (i : ℕ) (d : Derivation)
      → find es i ≡ some d
      → ((a : NodeId) → contains d.body a ≡ true → P a)
      → P d.conclusion)
    (base : NodeId → Bool) where
  Exact-visit :
      (delivered : NodeId → Bool) (i : ℕ) (todo : List ℕ) (d : Derivation) (c : Counted)
      → find es i ≡ some d
      → Inv es keys P rule delivered (i ∷ todo) c.front
      → Exact es base c
      → Exact es base (visit es i c)
  unfolding visit credit mark contains
  Exact-visit delivered i todo d c found v exact x =
      let before = c.front.remaining in
      let positive : before i ≢ 0 = ground (arith, v.counts i d found) in
      elim (Bool-cases (before i - 1 == 0)) [
        | inl last ↦
            let step = fired-update es before i (before i - 1) x d keys found positive in
            rw (last, head_of-find es i d found) (ground (arith, exact x, exact d.conclusion, step))
        | inr more ↦
            let step = fired-update es before i (before i - 1) x d keys found positive in
            rw more (ground (arith, exact x, step))
      ]

  Exact-visit_all :
      (delivered : NodeId → Bool) (todo : List ℕ) (c : Counted)
      → Distinct todo
      → ((i : ℕ) → contains todo i ≡ true → (d : Derivation) × (find es i ≡ some d))
      → Inv es keys P rule delivered todo c.front
      → Exact es base c
      → Exact es base (visit_all es todo c)
  unfolding visit_all contains
  Exact-visit_all delivered [] c k known v exact = exact
  Exact-visit_all delivered (i ∷ todo) c k known v exact =
      let (d, found) = known i (ground arith) in
      Exact-visit_all delivered todo (visit es i c) k.1 (λ j m. known j (ground arith))
        (rw front-visit (Inv-revisit es keys P rule delivered i todo d c.front found k.0 v))
        (Exact-visit delivered i todo d c found v exact)

  -- From an exact state the whole cascade stays exact.
  pub Exact-cascade :
      (uses : NodeId → List ℕ) (fuel : ℕ) (delivered : NodeId → Bool) (c : Counted)
      → ((a : NodeId) → uses a ≡ ids_using a es)
      → Inv es keys P rule delivered [] c.front
      → Closed es keys P rule c.front
      → Exact es base c
      → Exact es base (cascade uses es fuel c)
  unfolding cascade
  Exact-cascade uses zero delivered c same v closed exact = exact
  Exact-cascade uses (suc fuel) delivered c same v closed exact =
      elim (List-cases c.front.worklist) [
        | inl empty ↦ rw (empty, cascade) exact
        | inr (node, rest, e) ↦
            let popped = record c { front = record c.front { worklist = rest } } in
            let delivered' = λ (x : NodeId). delivered x || node == x in
            let (v', closed') = Inv-expand es keys P rule delivered node rest c.front e v closed in
            let same_front = front-visit_all es (ids_using node es) popped in
            rw (e, cascade, same node)
              (Exact-cascade uses fuel delivered' (visit_all es (ids_using node es) popped) same
                (rw same_front (unfold expand in v')) (rw same_front (unfold expand in closed'))
                (Exact-visit_all delivered' (ids_using node es) popped
                  (ids_using-Distinct node es keys) (find-ids_using node es)
                  (Inv-popped es keys P rule delivered node rest c.front e v) exact))
      ]
