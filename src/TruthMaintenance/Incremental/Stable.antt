-- ===== src/TruthMaintenance/Incremental/Stable.antt =====
-- The invariant of the incremental oracle between two calls, and how a cascade restores it.
use iknos.Prelude.{
  ℕ, ◌+◌, ◌<◌, ◌≡◌, Bool, true, [], some, arith, contains, Distinct, length, unmet_of,
  unmet_of_none,
}
use iknos.TruthMaintenance.Graph.{NodeId, Derivation, fact, derived}
use iknos.TruthMaintenance.Entries.{find, ids, ids_using, ids_heading, InRules-find}
use iknos.TruthMaintenance.Founded.{Founded, founded_rule}
use iknos.TruthMaintenance.Front.Laws.{Inv, Closed}
use iknos.TruthMaintenance.Front.Fuel.{
  pending-le-length, Settled, Settled-remaining, propagate-Settled, propagate_grows,
}
use iknos.TruthMaintenance.Incremental.State.{Oracle, cascade, run_cascade}
use iknos.TruthMaintenance.Incremental.Cascade.{Exact, front-cascade}
use iknos.TruthMaintenance.Incremental.Cascade.Exact.{Exact-cascade}

-- The table has one rule to a number, numbers below the next one, and the two indices list it.
pub record Indexed (o : Oracle) : Type 0 where
  pub keys : Distinct (ids o.derivs)
  pub below : (i : ℕ) → contains (ids o.derivs) i ≡ true → i < o.next_id
  pub uses : (a : NodeId) → o.uses a ≡ ids_using a o.derivs
  pub heads : (c : NodeId) → o.heads c ≡ ids_heading c o.derivs

-- Two oracles with the same tables are indexed alike.
pub Indexed-same :
    (o o' : Oracle)
    → o'.derivs ≡ o.derivs
    → o'.next_id ≡ o.next_id
    → o'.uses ≡ o.uses
    → o'.heads ≡ o.heads
    → Indexed o
    → Indexed o'
Indexed-same o o' d n u h x = record {
  keys = rw d x.keys;
  below = λ i m. rw n (x.below i (rw d at m));
  uses = λ a. rw (u, d) (x.uses a);
  heads = λ c. rw (h, d) (x.heads c);
}

-- Between two calls: nothing is queued, the counters and the support counts are exact, and the
-- supported set is the least fixpoint of the table.
pub record Stable (o : Oracle) : Type 0 where
  pub indexed : Indexed o
  pub empty : o.live.front.worklist ≡ []
  pub counters :
      (i : ℕ) (d : Derivation)
      → find o.derivs i ≡ some d
      → o.live.front.remaining i ≡ unmet_of (contains o.live.front.supported) d.body
  pub closed :
      (i : ℕ) (d : Derivation)
      → find o.derivs i ≡ some d
      → o.live.front.remaining i ≡ 0
      → contains o.live.front.supported d.conclusion ≡ true
  pub sound : (x : NodeId) → contains o.live.front.supported x ≡ true → Founded o.derivs o.base x
  pub grounds : (x : NodeId) → contains o.base x ≡ true → contains o.live.front.supported x ≡ true
  pub exact : Exact o.derivs (contains o.base) o.live

-- all that the rules support is in the set
pub Stable-complete :
    (o : Oracle) {x : NodeId}
    → Stable o
    → Founded o.derivs o.base x
    → contains o.live.front.supported x ≡ true
Stable-complete o s (fact h) = s.grounds _ h
Stable-complete o s (derived d m body) =
    let (i, found) = InRules-find o.derivs d s.indexed.keys m in
    let reached = λ (a : NodeId) (h : contains d.body a ≡ true). Stable-complete o s (body a h) in
    s.closed i d found (
      ground (
        arith,
        s.counters i d found,
        unmet_of_none (contains o.live.front.supported) d.body reached,
      ))

module _ (o : Oracle) (x : Indexed o) where
  abbrev pub Ready : (NodeId → Bool) → Type 0
  Ready delivered =
      Inv o.derivs x.keys (Founded o.derivs o.base) (founded_rule o.derivs o.base) delivered []
        o.live.front

  abbrev pub AllClosed : Type 0
  AllClosed =
      Closed o.derivs x.keys (Founded o.derivs o.base) (founded_rule o.derivs o.base) o.live.front

  -- From a front whose counters are exact, the cascade restores the invariant.
  pub run_cascade-Stable :
      (delivered : NodeId → Bool)
      → Ready delivered
      → AllClosed
      → Exact o.derivs (contains o.base) o.live
      → ((n : NodeId) → contains o.base n ≡ true → contains o.live.front.supported n ≡ true)
      → Stable (run_cascade o)
  unfolding run_cascade
  run_cascade-Stable delivered v closed exact grounds =
      let fuel = length o.live.front.worklist + length o.derivs in
      let P = Founded o.derivs o.base in
      let rule = founded_rule o.derivs o.base in
      let same = front-cascade o.uses o.derivs fuel o.live x.uses in
      let settled : Settled o.derivs x.keys P rule (cascade o.uses o.derivs fuel o.live).front =
        rw same (
          propagate-Settled o.derivs x.keys P rule fuel delivered o.live.front v closed
            (omega (arith, pending-le-length o.derivs o.live.front.supported))) in
      record {
        indexed = record { keys = x.keys; below = x.below; uses = x.uses; heads = x.heads };
        empty = settled.empty;
        counters = λ i d found. Settled-remaining o.derivs x.keys P rule _ i d settled found;
        closed = settled.closed;
        sound = settled.inv.sound;
        grounds = λ n h. rw same (propagate_grows o.derivs fuel n o.live.front (grounds n h));
        exact =
            Exact-cascade o.derivs x.keys P rule (contains o.base) o.uses fuel delivered o.live
              x.uses v closed exact;
      }
