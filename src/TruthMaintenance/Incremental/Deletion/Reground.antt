-- ===== src/TruthMaintenance/Incremental/Deletion/Reground.antt =====
-- The last step of `_delete` before the cascade: an over-deleted node that is a surviving base fact,
-- or that a rule over the survivors concludes, is grounded again.
use iknos.Prelude.{
  ℕ, ◌+◌, ◌≡◌, refl, ◌∙◌, Bool, true, false, inl, inr, List, [], ◌∷◌, arith, contains, Distinct,
  ◌==◌, if◌then◌else◌, Bool-cases, one_if,
}
use iknos.TruthMaintenance.Graph.{NodeId}
use iknos.TruthMaintenance.Entries.{Entry, ids, ids_heading}
use iknos.TruthMaintenance.Founded.{Rule}
use iknos.TruthMaintenance.Front.Laws.{Inv}
use iknos.TruthMaintenance.Incremental.State.{Counted, credit}
use iknos.TruthMaintenance.Incremental.Cascade.{fired}
use iknos.TruthMaintenance.Incremental.Credit.{
  credit-support_count, credit-remaining, credit-supported, Inv-credit,
}
use iknos.TruthMaintenance.Incremental.Deletion.{reground_heads, reground}

-- the numbers of a list whose counter is at zero
pub zeros : List ℕ → (ℕ → ℕ) → ℕ
zeros [] unmet = 0
zeros (i ∷ is) unmet = one_if (unmet i == 0) + zeros is unmet

pub zeros-ids_heading :
    (es : List Entry) (unmet : ℕ → ℕ) (c : NodeId)
    → zeros (ids_heading c es) unmet ≡ fired es unmet c
unfolding zeros fired ids_heading
zeros-ids_heading [] unmet c = refl
zeros-ids_heading ((i, d) ∷ es) unmet c = ground (arith, zeros-ids_heading es unmet c)

record Heads (n : NodeId) (is : List ℕ) (c c' : Counted) : Type 0 where
  remaining : c'.front.remaining ≡ c.front.remaining
  support_count :
      (x : NodeId)
      → c'.support_count x ≡ (if n == x then zeros is c.front.remaining else 0) + c.support_count x
  grows : (x : NodeId) → contains c.front.supported x ≡ true → contains c'.front.supported x ≡ true
  closed :
      (i : ℕ)
      → contains is i ≡ true
      → c.front.remaining i ≡ 0
      → contains c'.front.supported n ≡ true

abbrev head_step : NodeId → ℕ → Counted → Counted
head_step n i c = if c.front.remaining i == 0 then credit n c else c

Heads-reground_heads :
    (n : NodeId) (is : List ℕ) (c : Counted) → Heads n is c (reground_heads n is c)
unfolding reground_heads zeros contains
Heads-reground_heads n [] c = record {
  remaining = refl;
  support_count = λ x. ground arith;
  grows = λ x h. h;
  closed = λ i m. cc;
}
Heads-reground_heads n (i ∷ is) c =
    let r = Heads-reground_heads n is (head_step n i c) in
    let same : (head_step n i c).front.remaining ≡ c.front.remaining =
      ground (arith, credit-remaining n c) in
    record {
      remaining = r.remaining ∙ same;
      support_count = λ x.
          let s : (reground_heads n is (head_step n i c)).support_count x
              ≡ (if n == x then zeros is c.front.remaining else 0)
                + (head_step n i c).support_count x =
            rw same at (r.support_count x) in
          ground (arith, s, credit-support_count n c x);
      grows = λ x h. r.grows x (ground (arith, credit-supported n c x));
      closed = λ j m z. elim (Bool-cases (i == j)) [
        | inl eq ↦
            let e : i ≡ j = ground arith in
            let z' : c.front.remaining i ≡ 0 = rw e z in
            r.grows n (ground (arith, credit-supported n c n))
        | inr other ↦ r.closed j (ground arith) (rw same z)
      ];
    }

pub record Regrounded (heads : NodeId → List ℕ) (base nodes : List NodeId) (c c' : Counted)
    : Type 0 where
  pub remaining : c'.front.remaining ≡ c.front.remaining
  pub support_count :
      (x : NodeId)
      → c'.support_count x
        ≡ (if contains nodes x
            then one_if (contains base x) + zeros (heads x) c.front.remaining
            else 0)
          + c.support_count x
  pub grows :
      (x : NodeId) → contains c.front.supported x ≡ true → contains c'.front.supported x ≡ true
  pub facts :
      (x : NodeId)
      → contains nodes x ≡ true
      → contains base x ≡ true
      → contains c'.front.supported x ≡ true
  pub closed :
      (x : NodeId) (i : ℕ)
      → contains nodes x ≡ true
      → contains (heads x) i ≡ true
      → c.front.remaining i ≡ 0
      → contains c'.front.supported x ≡ true

abbrev fact_step : List NodeId → NodeId → Counted → Counted
fact_step base n c = if contains base n then credit n c else c

-- the two groundings of one node
abbrev node_step : (NodeId → List ℕ) → List NodeId → NodeId → Counted → Counted
node_step heads base n c = reground_heads n (heads n) (fact_step base n c)

module _ (heads : NodeId → List ℕ) (base : List NodeId) (n : NodeId) (c : Counted) where
  fact_step-remaining : (fact_step base n c).front.remaining ≡ c.front.remaining
  fact_step-remaining = ground (arith, credit-remaining n c)

  heads_step : Heads n (heads n) (fact_step base n c) (node_step heads base n c)
  heads_step = Heads-reground_heads n (heads n) (fact_step base n c)

  node_step-remaining : (node_step heads base n c).front.remaining ≡ c.front.remaining
  node_step-remaining = heads_step.remaining ∙ fact_step-remaining

  node_step-support_count :
      (x : NodeId)
      → (node_step heads base n c).support_count x
        ≡ (if n == x then one_if (contains base n) + zeros (heads n) c.front.remaining else 0)
          + c.support_count x
  node_step-support_count x =
      let s : (node_step heads base n c).support_count x
          ≡ (if n == x then zeros (heads n) c.front.remaining else 0)
            + (fact_step base n c).support_count x =
        rw fact_step-remaining at (heads_step.support_count x) in
      ground (arith, s, credit-support_count n c x)

  node_step_grows :
      (x : NodeId)
      → contains c.front.supported x ≡ true
      → contains (node_step heads base n c).front.supported x ≡ true
  node_step_grows x h = heads_step.grows x (ground (arith, credit-supported n c x))

  node_step_fact :
      contains base n ≡ true → contains (node_step heads base n c).front.supported n ≡ true
  node_step_fact h = heads_step.grows n (ground (arith, credit-supported n c n))

  node_step_closed :
      (i : ℕ)
      → contains (heads n) i ≡ true
      → c.front.remaining i ≡ 0
      → contains (node_step heads base n c).front.supported n ≡ true
  node_step_closed i m z = heads_step.closed i m (rw fact_step-remaining z)

pub Regrounded-reground :
    (heads : NodeId → List ℕ) (base nodes : List NodeId) (c : Counted)
    → Distinct nodes
    → Regrounded heads base nodes c (reground heads base nodes c)
unfolding reground contains
Regrounded-reground heads base [] c k = record {
  remaining = refl;
  support_count = λ x. omega arith;
  grows = λ x h. h;
  facts = λ x m. cc;
  closed = λ x i m. cc;
}
Regrounded-reground heads base (n ∷ nodes) c k =
    let c1 = node_step heads base n c in
    let same = node_step-remaining heads base n c in
    let r = Regrounded-reground heads base nodes c1 k.1 in
    record {
      remaining = r.remaining ∙ same;
      support_count = λ x.
          let s : (reground heads base nodes c1).support_count x
              ≡ (if contains nodes x
                  then one_if (contains base x) + zeros (heads x) c.front.remaining
                  else 0)
                + c1.support_count x =
            rw same at (r.support_count x) in
          elim (Bool-cases (n == x)) [
            | inl eq ↦
                let e : n ≡ x = ground arith in
                let once : contains nodes x ≡ false = rw e at k.0 in
                let one = node_step-support_count heads base n c x in
                let one' : c1.support_count x
                    ≡ one_if (contains base x)
                      + zeros (heads x) c.front.remaining
                      + c.support_count x =
                  one ∙ rw (eq, e) in
                ground (arith, s, one')
            | inr other ↦ ground (arith, s, node_step-support_count heads base n c x)
          ];
      grows = λ x h. r.grows x (node_step_grows heads base n c x h);
      facts = λ x m b. elim (Bool-cases (n == x)) [
        | inl eq ↦
            let e : n ≡ x = ground arith in
            r.grows x (rw (← e) (node_step_fact heads base n c (rw e b)))
        | inr other ↦ r.facts x (ground arith) b
      ];
      closed = λ x i m h z. elim (Bool-cases (n == x)) [
        | inl eq ↦
            let e : n ≡ x = ground arith in
            r.grows x (rw (← e) (node_step_closed heads base n c i (rw e h) z))
        | inr other ↦ r.closed x i (ground arith) h (rw same z)
      ];
    }

module _ (es : List Entry) (keys : Distinct (ids es)) (P : NodeId → Type 0) (rule : Rule es P)
    (delivered : NodeId → Bool) where
  Inv-reground_heads :
      (n : NodeId) (is : List ℕ) (c : Counted)
      → ((i : ℕ) → contains is i ≡ true → c.front.remaining i ≡ 0 → P n)
      → Inv es keys P rule delivered [] c.front
      → Inv es keys P rule delivered [] (reground_heads n is c).front
  unfolding reground_heads contains
  Inv-reground_heads n [] c p v = v
  Inv-reground_heads n (i ∷ is) c p v =
      let same : (head_step n i c).front.remaining ≡ c.front.remaining =
        ground (arith, credit-remaining n c) in
      Inv-reground_heads n is (head_step n i c) (λ j m z. p j (ground arith) (rw (← same) z))
        (elim (Bool-cases (c.front.remaining i == 0)) [
          | inl met ↦
              rw met (Inv-credit es keys P rule delivered n c (p i (ground arith) (ground arith)) v)
          | inr more ↦ rw more v
        ])

  pub Inv-reground :
      (heads : NodeId → List ℕ) (base nodes : List NodeId) (c : Counted)
      → ((x : NodeId) → contains base x ≡ true → P x)
      → ((x : NodeId) (i : ℕ) → contains (heads x) i ≡ true → c.front.remaining i ≡ 0 → P x)
      → Inv es keys P rule delivered [] c.front
      → Inv es keys P rule delivered [] (reground heads base nodes c).front
  unfolding reground
  Inv-reground heads base [] c b h v = v
  Inv-reground heads base (n ∷ nodes) c b h v =
      let same = node_step-remaining heads base n c in
      let same_fact = fact_step-remaining heads base n c in
      Inv-reground heads base nodes (node_step heads base n c) b
        (λ x i m z. h x i m (rw (← same) z))
        (Inv-reground_heads n (heads n) (fact_step base n c) (λ i m z. h n i m (rw (← same_fact) z))
          (elim (Bool-cases (contains base n)) [
            | inl known ↦ rw known (Inv-credit es keys P rule delivered n c (b n known) v)
            | inr other ↦ rw other v
          ]))
