-- ===== src/TruthMaintenance/Incremental/Insertion/Correct.antt =====
-- `_insert` restores the invariant, over the larger base and table.
use iknos.Prelude.{
  ℕ, ◌+◌, ◌≡◌, refl, ◌∙◌, ap, true, false, ◌||◌, inl, inr, List, [], ◌∷◌, ◌++◌, arith, contains,
  contains-sorted, sorted, sorted-Distinct, Bool-cases, ◌==◌,
}
use iknos.TruthMaintenance.Graph.{NodeId, Derivation, fact}
use iknos.TruthMaintenance.Entries.{Entry, rules, enumerate, enumerate-Distinct}
use iknos.TruthMaintenance.Entries.Append.{
  find-append, find-append_right, rules-append, InRules-append_left,
}
use iknos.TruthMaintenance.Founded.{Founded, founded_rule, Supported-mono}
use iknos.TruthMaintenance.Front.Laws.{Inv}
use iknos.TruthMaintenance.Recompute.Seed.{Within}
use iknos.TruthMaintenance.Incremental.State.{Oracle, run_cascade}
use iknos.TruthMaintenance.Incremental.Cascade.{Exact, fired, fired_cong}
use iknos.TruthMaintenance.Incremental.Stable.{
  Indexed, Indexed-same, Stable, Ready, AllClosed, run_cascade-Stable,
}
use iknos.TruthMaintenance.Incremental.Insertion.{
  register_all, ground_facts, fire_new, insert, sort_derivs,
}
use iknos.TruthMaintenance.Incremental.Insertion.Register.{
  Counters, Registered, Indexed-register_all, Counters-register_all, Registered-register_all,
}
use iknos.TruthMaintenance.Incremental.Insertion.Ground.{
  Grounded, Grounded-ground_facts, Fired, Fired-fire_new, Inv-ground_facts, Inv-fire_new,
}

fired-append :
    (es fs : List Entry) (unmet : ℕ → ℕ) (x : NodeId)
    → fired (es ++ fs) unmet x ≡ fired es unmet x + fired fs unmet x
unfolding fired
fired-append [] fs unmet x = omega arith
fired-append ((i, d) ∷ es) fs unmet x = omega (arith, fired-append es fs unmet x)

module _ (added_base : List NodeId) (added : List Derivation) (o : Oracle) (s : Stable o)
    (apart : (x : NodeId) → contains added_base x ≡ true → contains o.base x ≡ false) where
  abbrev new : List Entry
  new = enumerate o.next_id (sort_derivs added)

  abbrev baseline : List NodeId
  baseline = o.live.front.supported

  abbrev registered : Oracle
  registered = register_all baseline new o

  abbrev grounded : Oracle
  grounded = ground_facts (sorted added_base) registered

  abbrev final : Oracle
  final = record grounded { live = fire_new new grounded.live }

  was : Registered (sort_derivs added) o registered
  was = Registered-register_all baseline (sort_derivs added) o.next_id o refl s.indexed

  facts : Grounded (sorted added_base) registered grounded
  facts = Grounded-ground_facts (sorted added_base) registered (sorted-Distinct added_base)

  fires : Fired new grounded.live final.live
  fires = Fired-fire_new new grounded.live

  table : final.derivs ≡ o.derivs ++ new
  table = facts.derivs ∙ was.table

  base : (x : NodeId) → contains final.base x ≡ (contains added_base x || contains o.base x)
  base x =
      let b : contains registered.base x ≡ contains o.base x = ap (λ l. contains l x) was.base in
      ground (arith, facts.base x, contains-sorted added_base x, b)

  Indexed-final : Indexed final
  Indexed-final =
      Indexed-same registered final facts.derivs facts.next_id facts.uses facts.heads
        (Indexed-register_all baseline (sort_derivs added) o.next_id o refl s.indexed)

  Within-new : Within final.derivs new
  Within-new i d found =
      rw table (find-append_right o.derivs new i d (rw table at Indexed-final.keys) found)

  grown : {x : NodeId} → Founded o.derivs o.base x → Founded final.derivs final.base x
  grown =
      Supported-mono (λ n h. ground (arith, base n))
        (λ d m. rw (table, rules-append) (InRules-append_left (rules o.derivs) (rules new) m))

  counters : Counters baseline registered
  counters =
      Counters-register_all baseline (sort_derivs added) o.next_id o refl s.indexed s.counters

  idle : registered.live.front.worklist ≡ []
  idle = was.worklist ∙ s.empty

  same_supported : (x : NodeId) → contains registered.live.front.supported x ≡ contains baseline x
  same_supported x = ap (λ l. contains l x) was.supported

  Ready-registered :
      Inv final.derivs Indexed-final.keys
        (Founded final.derivs final.base)
        (founded_rule final.derivs final.base)
        (contains baseline)
        []
        registered.live.front
  unfolding contains
  Ready-registered = record {
    splits = λ x.
        let e : contains registered.live.front.worklist x ≡ false = rw idle in
        ground (arith, same_supported x);
    apart = λ x m. let e : contains registered.live.front.worklist x ≡ false = rw idle in cc;
    fresh = rw idle tt;
    counts = λ i d found. omega (arith, counters i d (rw facts.derivs at found));
    sound = λ x m. grown (s.sound x (ground (arith, same_supported x)));
  }

  Ready-final : Ready final Indexed-final (contains baseline)
  Ready-final =
      let P = Founded final.derivs final.base in
      let rule = founded_rule final.derivs final.base in
      Inv-fire_new final.derivs Indexed-final.keys P rule (contains baseline) new grounded.live
        (enumerate-Distinct o.next_id (sort_derivs added)) Within-new
        (Inv-ground_facts final.derivs Indexed-final.keys P rule (contains baseline)
          (sorted added_base) registered
          (λ x m. fact (ground (arith, base x, contains-sorted added_base x))) Ready-registered)

  final-remaining : (i : ℕ) → final.live.front.remaining i ≡ registered.live.front.remaining i
  final-remaining i = ap (λ f. f i) (fires.remaining ∙ facts.remaining)

  kept_supported :
      (x : NodeId) → contains baseline x ≡ true → contains final.live.front.supported x ≡ true
  kept_supported x h = fires.grows x (ground (arith, facts.supported x, same_supported x))

  Closed-final : AllClosed final Indexed-final
  Closed-final i d found z = elim (find-append o.derivs new i d (rw table at found)) [
    | inl old ↦
        kept_supported d.conclusion
          (s.closed i d old (ground (arith, final-remaining i, was.old i d old)))
    | inr fresh ↦ fires.closed i d fresh (ground (arith, ap (λ f. f i) fires.remaining))
  ]

  Exact-final : Exact final.derivs (contains final.base) final.live
  Exact-final x =
      let whole = ap (λ es. fired es final.live.front.remaining x) table in
      let parts = fired-append o.derivs new final.live.front.remaining x in
      let old =
        fired_cong o.derivs final.live.front.remaining o.live.front.remaining x s.indexed.keys
          (λ i d found _. ap (λ n. n == 0) (final-remaining i ∙ was.old i d found)) in
      let fresh = ap (λ f. fired new f x) fires.remaining in
      let before = ap (λ f. f x) was.support_count in
      ground (
        arith,
        whole,
        parts,
        old,
        fresh,
        before,
        fires.support_count x,
        facts.support_count x,
        s.exact x,
        base x,
        contains-sorted added_base x,
        apart x,
      )

  final_grounds :
      (x : NodeId) → contains final.base x ≡ true → contains final.live.front.supported x ≡ true
  final_grounds x h = elim (Bool-cases (contains added_base x)) [
    | inl added_fact ↦
        fires.grows x (ground (arith, facts.supported x, contains-sorted added_base x))
    | inr old_fact ↦ kept_supported x (s.grounds x (ground (arith, base x)))
  ]

  -- In a state with the invariant, an insertion of base facts that are new and of any rules gives a
  -- state with the invariant.
  pub insert-Stable : Stable (insert added_base added o)
  unfolding insert
  insert-Stable =
      run_cascade-Stable final Indexed-final (contains baseline) Ready-final Closed-final
        Exact-final final_grounds

  pub insert-derivs :
      (insert added_base added o).derivs ≡ o.derivs ++ enumerate o.next_id (sort_derivs added)
  unfolding insert run_cascade
  insert-derivs = table

  pub insert-base :
      (x : NodeId)
      → contains (insert added_base added o).base x ≡ (contains added_base x || contains o.base x)
  unfolding insert run_cascade
  insert-base x = base x
