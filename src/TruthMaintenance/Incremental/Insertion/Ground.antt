-- ===== src/TruthMaintenance/Incremental/Insertion/Ground.antt =====
-- What the new base facts and the new rules that the baseline satisfies contribute.
use iknos.Prelude.{
  ℕ, ◌+◌, ◌≡◌, refl, ◌∙◌, Bool, true, false, ◌||◌, inl, inr, List, [], ◌∷◌, some, arith, contains,
  Distinct, ◌==◌, if◌then◌else◌, Bool-cases, one_if, unmet_of_zero,
}
use iknos.TruthMaintenance.Graph.{NodeId, Derivation}
use iknos.TruthMaintenance.Entries.{Entry, find, ids}
use iknos.TruthMaintenance.Founded.{Rule}
use iknos.TruthMaintenance.Front.Laws.{Inv}
use iknos.TruthMaintenance.Recompute.Seed.{Within, Within-head, Within-tail}
use iknos.TruthMaintenance.Incremental.State.{Counted, Oracle, credit}
use iknos.TruthMaintenance.Incremental.Cascade.{fired}
use iknos.TruthMaintenance.Incremental.Credit.{
  credit-support_count, credit-remaining, credit-supported, Inv-credit,
}
use iknos.TruthMaintenance.Incremental.Insertion.{ground_facts, fire_new}

pub record Grounded (facts : List NodeId) (o o' : Oracle) : Type 0 where
  pub derivs : o'.derivs ≡ o.derivs
  pub next_id : o'.next_id ≡ o.next_id
  pub uses : o'.uses ≡ o.uses
  pub heads : o'.heads ≡ o.heads
  pub base : (x : NodeId) → contains o'.base x ≡ (contains facts x || contains o.base x)
  pub remaining : o'.live.front.remaining ≡ o.live.front.remaining
  pub support_count :
      (x : NodeId) → o'.live.support_count x ≡ one_if (contains facts x) + o.live.support_count x
  pub supported :
      (x : NodeId)
      → contains o'.live.front.supported x ≡ (contains facts x || contains o.live.front.supported x)

pub Grounded-ground_facts :
    (facts : List NodeId) (o : Oracle) → Distinct facts → Grounded facts o (ground_facts facts o)
unfolding ground_facts contains
Grounded-ground_facts [] o k = record {
  derivs = refl;
  next_id = refl;
  uses = refl;
  heads = refl;
  base = λ x. refl;
  remaining = refl;
  support_count = λ x. omega arith;
  supported = λ x. refl;
}
Grounded-ground_facts (n ∷ facts) o k =
    let r =
      Grounded-ground_facts facts (record o { base = n ∷ o.base; live = credit n o.live }) k.1 in
    record {
      derivs = r.derivs;
      next_id = r.next_id;
      uses = r.uses;
      heads = r.heads;
      base = λ x. ground (arith, r.base x);
      remaining = r.remaining ∙ credit-remaining n o.live;
      support_count = λ x. elim (Bool-cases (n == x)) [
        | inl same ↦
            let e : n ≡ x = ground arith in
            let once : contains facts x ≡ false = rw e at k.0 in
            ground (arith, r.support_count x, credit-support_count n o.live x)
        | inr other ↦ ground (arith, r.support_count x, credit-support_count n o.live x)
      ];
      supported = λ x. ground (arith, r.supported x, credit-supported n o.live x);
    }

-- the new rules whose counter is at zero
pub record Fired (new : List Entry) (c c' : Counted) : Type 0 where
  pub remaining : c'.front.remaining ≡ c.front.remaining
  pub support_count :
      (x : NodeId) → c'.support_count x ≡ fired new c.front.remaining x + c.support_count x
  pub grows :
      (x : NodeId) → contains c.front.supported x ≡ true → contains c'.front.supported x ≡ true
  pub closed :
      (i : ℕ) (d : Derivation)
      → find new i ≡ some d
      → c.front.remaining i ≡ 0
      → contains c'.front.supported d.conclusion ≡ true

abbrev step : ℕ → Derivation → Counted → Counted
step i d c = if c.front.remaining i == 0 then credit d.conclusion c else c

step-remaining :
    (i : ℕ) (d : Derivation) (c : Counted) → (step i d c).front.remaining ≡ c.front.remaining
step-remaining i d c = ground (arith, credit-remaining d.conclusion c)

pub Fired-fire_new : (new : List Entry) (c : Counted) → Fired new c (fire_new new c)
unfolding fire_new fired find
Fired-fire_new [] c = record {
  remaining = refl;
  support_count = λ x. omega arith;
  grows = λ x h. h;
  closed = λ i d h z. cc;
}
Fired-fire_new ((i, d) ∷ new) c =
    let r = Fired-fire_new new (step i d c) in
    let same = step-remaining i d c in
    record {
      remaining = r.remaining ∙ same;
      support_count = λ x.
          let s : (fire_new new (step i d c)).support_count x
              ≡ fired new c.front.remaining x + (step i d c).support_count x =
            rw same at (r.support_count x) in
          ground (arith, s, credit-support_count d.conclusion c x);
      grows = λ x h. r.grows x (ground (arith, credit-supported d.conclusion c x));
      closed = λ j e found z. elim (Bool-cases (i == j)) [
        | inl eq ↦
            let e' : i ≡ j = ground arith in
            let e'' : d ≡ e = ground arith in
            r.grows e.conclusion
              (rw (← e'') (ground (arith, credit-supported d.conclusion c d.conclusion)))
        | inr other ↦ r.closed j e (ground arith) (rw same z)
      ];
    }

module _ (es : List Entry) (keys : Distinct (ids es)) (P : NodeId → Type 0) (rule : Rule es P)
    (delivered : NodeId → Bool) where
  pub Inv-ground_facts :
      (facts : List NodeId) (o : Oracle)
      → ((x : NodeId) → contains facts x ≡ true → P x)
      → Inv es keys P rule delivered [] o.live.front
      → Inv es keys P rule delivered [] (ground_facts facts o).live.front
  unfolding ground_facts contains
  Inv-ground_facts [] o p v = v
  Inv-ground_facts (n ∷ facts) o p v =
      Inv-ground_facts facts (record o { base = n ∷ o.base; live = credit n o.live })
        (λ x m. p x (ground arith))
        (Inv-credit es keys P rule delivered n o.live (p n (ground arith)) v)

  pub Inv-fire_new :
      (new : List Entry) (c : Counted)
      → Distinct (ids new)
      → Within es new
      → Inv es keys P rule delivered [] c.front
      → Inv es keys P rule delivered [] (fire_new new c).front
  unfolding fire_new ids contains
  Inv-fire_new [] c k w v = v
  Inv-fire_new ((i, d) ∷ new) c k w v =
      Inv-fire_new new (step i d c) k.1 (Within-tail es i d new k.0 w)
        (elim (Bool-cases (c.front.remaining i == 0)) [
          | inl zero_left ↦ rw zero_left (
              Inv-credit es keys P rule delivered d.conclusion c
                (rule i d found (λ a m. v.sound a (met zero_left a m))) v)
          | inr more ↦ rw more v
        ])
    where
      found : find es i ≡ some d
      found = Within-head es i d new w

      met :
          (c.front.remaining i == 0) ≡ true
          → (a : NodeId) → contains d.body a ≡ true
          → contains c.front.supported a ≡ true
      met z a m =
          let reached = unmet_of_zero delivered d.body a (ground (arith, v.counts i d found)) m in
          ground (arith, v.splits a)
