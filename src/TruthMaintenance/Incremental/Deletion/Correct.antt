-- ===== src/TruthMaintenance/Incremental/Deletion/Correct.antt =====
-- `_delete` restores the invariant, over the smaller base and table.
use iknos.Prelude.{
  ℕ, ◌+◌, ◌≡◌, refl, sym, ◌∙◌, ap, Bool, true, false, not, ◌&&◌, inl, inr, ◌⊎◌, List, [], none,
  some, arith, contains, contains-keep, contains-minus, contains-distinct, contains-sorted, sorted,
  sorted-Distinct, distinct, keep, all, all-contains, all_witness, Distinct, ◌==◌, ==_refl,
  if◌then◌else◌, Bool-cases, length, Bool_ext, unmet_of, unmet_of_cong, unmet_of_none,
  unmet_of_zero,
}
use iknos.TruthMaintenance.Graph.{NodeId, Derivation, fact, derived}
use iknos.TruthMaintenance.Entries.{
  Entry, find, ids, InRules-find, find-InRules, find-contains-ids, contains-ids_heading,
  find-ids_heading,
}
use iknos.TruthMaintenance.Founded.{Founded, founded_rule}
use iknos.TruthMaintenance.Front.Laws.{Inv}
use iknos.TruthMaintenance.Incremental.State.{Counted, Oracle, run_cascade}
use iknos.TruthMaintenance.Incremental.Cascade.{Exact, fired, fired_cong}
use iknos.TruthMaintenance.Incremental.Stable.{
  Indexed, Indexed-same, Stable, Stable-complete, Ready, AllClosed, run_cascade-Stable,
}
use iknos.TruthMaintenance.Incremental.Deletion.{
  unground, unregister, over_delete, body_total, unsupport, reground, delete,
}
use iknos.TruthMaintenance.Incremental.Deletion.Unregister.{
  Ungrounded, Ungrounded-unground, Unregistered, Unregistered-unregister,
}
use iknos.TruthMaintenance.Incremental.Deletion.Over.{Over, over_delete-Over}
use iknos.TruthMaintenance.Incremental.Deletion.Unsupport.{
  survivors, unsupport-support_count, unsupport-remaining,
}
use iknos.TruthMaintenance.Incremental.Deletion.Reground.{
  Regrounded, Regrounded-reground, Inv-reground, zeros, zeros-ids_heading,
}

module _ (removed_base : List NodeId) (removed : List Entry) (o : Oracle) (s : Stable o)
    (once : Distinct (ids removed))
    (within : (j : ℕ) (e : Derivation) → find removed j ≡ some e → find o.derivs j ≡ some e) where
  abbrev ungrounded : List NodeId × Oracle
  ungrounded = unground removed_base [] o

  abbrev dropped : List NodeId × Oracle
  dropped = unregister removed ungrounded.0 ungrounded.1

  abbrev seeds : List NodeId
  seeds = dropped.0

  abbrev o' : Oracle
  o' = dropped.1

  abbrev supported : List NodeId
  supported = o'.live.front.supported

  abbrev stack : List NodeId
  stack = keep (contains supported) (distinct seeds)

  abbrev over : List NodeId
  over =
      (over_delete o'.derivs o'.uses supported (length stack + body_total o'.derivs []) [] stack).0

  left_base : Ungrounded removed_base [] ungrounded.0 o ungrounded.1
  left_base = Ungrounded-unground removed_base [] o

  left : Unregistered removed ungrounded.0 seeds ungrounded.1 o'
  left =
      Unregistered-unregister removed ungrounded.0 ungrounded.1 once
        (λ j e h. rw left_base.derivs (within j e h))
        (Indexed-same o ungrounded.1 left_base.derivs left_base.next_id left_base.uses
          left_base.heads s.indexed)

  live : o'.live ≡ o.live
  live = left.live ∙ left_base.live

  same_supported : (x : NodeId) → contains supported x ≡ contains o.live.front.supported x
  same_supported x = ap (λ (c : Counted). contains c.front.supported x) live

  same_remaining : (i : ℕ) → o'.live.front.remaining i ≡ o.live.front.remaining i
  same_remaining i = ap (λ (c : Counted). c.front.remaining i) live

  base_left :
      (x : NodeId) → contains o'.base x ≡ (not (contains removed_base x) && contains o.base x)
  base_left x = ap (λ l. contains l x) left.base ∙ left_base.base x

  find_left :
      (j : ℕ) → find o'.derivs j ≡ (if contains (ids removed) j then none else find o.derivs j)
  find_left j = ground (arith, left.find_left j, ap (λ t. find t j) left_base.derivs)

  was_there : (i : ℕ) (d : Derivation) → find o'.derivs i ≡ some d → find o.derivs i ≡ some d
  was_there i d found = ground (arith, find_left i)

  counters :
      (i : ℕ) (d : Derivation)
      → find o'.derivs i ≡ some d
      → o'.live.front.remaining i ≡ unmet_of (contains supported) d.body
  counters i d found =
      same_remaining i
      ∙ s.counters i d (was_there i d found)
      ∙ sym (
          unmet_of_cong (contains supported) (contains o.live.front.supported) d.body
            (λ a m. same_supported a))

  gone : Over o'.derivs left.indexed.keys supported [] stack over
  unfolding contains
  gone =
      over_delete-Over o'.derivs left.indexed.keys supported o'.uses left.indexed.uses
        (length stack + body_total o'.derivs []) [] stack (omega arith)
        (λ i d a found m used sup. cc)

  -- a supported seed is over-deleted
  seed_gone :
      (x : NodeId)
      → contains seeds x ≡ true
      → contains o.live.front.supported x ≡ true
      → contains over x ≡ true
  seed_gone x m sup = gone.seeds x (
      ground (
        arith,
        contains-keep (contains supported) (distinct seeds) x,
        contains-distinct seeds x,
        same_supported x,
      ))

  -- a base fact that was removed is over-deleted
  fact_gone :
      (x : NodeId) → contains o.base x ≡ true → contains o'.base x ≡ false → contains over x ≡ true
  fact_gone x was now =
      let sup = s.grounds x was in
      seed_gone x (left.grows x (left_base.seeded x (ground (arith, base_left x)) sup)) sup

  -- so is the conclusion of a removed rule that had fired
  rule_gone :
      (i : ℕ) (d : Derivation)
      → find removed i ≡ some d
      → o.live.front.remaining i ≡ 0
      → contains over d.conclusion ≡ true
  rule_gone i d found z =
      let sup = s.closed i d (within i d found) z in
      let z' : ungrounded.1.live.front.remaining i ≡ 0 = rw left_base.live z in
      let sup' : contains ungrounded.1.live.front.supported d.conclusion ≡ true =
        rw left_base.live sup in
      seed_gone d.conclusion (left.seeded i d found z' sup') sup

  -- the conclusion of a surviving rule with an over-deleted antecedent is over-deleted
  spreads :
      (i : ℕ) (d : Derivation) (a : NodeId)
      → find o'.derivs i ≡ some d
      → contains over a ≡ true
      → contains d.body a ≡ true
      → contains o.live.front.supported d.conclusion ≡ true
      → contains over d.conclusion ≡ true
  unfolding contains
  spreads i d a found lost used sup =
      let c = gone.closed i d a found lost used (same_supported d.conclusion ∙ sup) in ground arith

  abbrev survives : NodeId → Bool
  survives a = not (contains over a)

  -- What was supported is over-deleted or supported by what is left.
  over_or_founded :
      {x : NodeId}
      → Founded o.derivs o.base x
      → (contains over x ≡ true) ⊎ Founded o'.derivs o'.base x
  over_or_founded (fact {n = x} h) = elim (Bool-cases (contains o'.base x)) [
    | inl kept ↦ inr (fact kept)
    | inr lost ↦ inl (fact_gone x h lost)
  ]
  over_or_founded (derived d m body) =
      let (i, found) = InRules-find o.derivs d s.indexed.keys m in
      let all_in = λ (a : NodeId) (h : contains d.body a ≡ true). Stable-complete o s (body a h) in
      let met : o.live.front.remaining i ≡ 0 =
        s.counters i d found ∙ unmet_of_none (contains o.live.front.supported) d.body all_in in
      let parts = λ (a : NodeId) (h : contains d.body a ≡ true). over_or_founded (body a h) in
      elim (Bool-cases (contains (ids removed) i)) [
        | inl lost ↦
            let (e, e_found) = find-contains-ids removed i lost in
            let same : e ≡ d = ground (arith, within i e e_found) in
            inl (rw (← same) (rule_gone i e e_found met))
        | inr stays ↦
            let found' : find o'.derivs i ≡ some d = ground (arith, find_left i) in
            elim (Bool-cases (all survives d.body)) [
              | inl none_lost ↦ inr (
                  derived d (find-InRules o'.derivs i d found') (λ a h. elim (parts a h) [
                    | inl lost ↦
                        let kept = all-contains survives d.body a none_lost h in
                        absurd (ground arith)
                    | inr f ↦ f
                  ]))
              | inr some_lost ↦
                  let (a, used, lost) = all_witness survives d.body some_lost in
                  inl (spreads i d a found' (ground arith) used (s.closed i d found met))
            ]
      ]

  abbrev mid : Counted
  mid = unsupport over o'

  abbrev final : Oracle
  final = record o' { live = reground o'.heads o'.base (sorted over) mid }

  regrounded : Regrounded o'.heads o'.base (sorted over) mid final.live
  regrounded = Regrounded-reground o'.heads o'.base (sorted over) mid (sorted-Distinct over)

  Indexed-final : Indexed final
  Indexed-final = Indexed-same o' final refl refl refl refl left.indexed

  kept : NodeId → Bool
  kept = contains (survivors over o' left.indexed)

  kept_lem : (x : NodeId) → kept x ≡ (not (contains over x) && contains o.live.front.supported x)
  unfolding kept
  kept_lem x = ground (arith, contains-minus supported over x, same_supported x)

  mid-remaining :
      (i : ℕ) (d : Derivation)
      → find o'.derivs i ≡ some d
      → mid.front.remaining i ≡ unmet_of kept d.body
  unfolding kept
  mid-remaining i d found = unsupport-remaining over o' left.indexed i d found (counters i d found)

  kept-founded : (x : NodeId) → kept x ≡ true → Founded o'.derivs o'.base x
  kept-founded x h = elim (over_or_founded (s.sound x (ground (arith, kept_lem x)))) [
    | inl lost ↦ absurd (ground (arith, kept_lem x))
    | inr f ↦ f
  ]

  Ready-mid :
      Inv o'.derivs Indexed-final.keys
        (Founded o'.derivs o'.base)
        (founded_rule o'.derivs o'.base)
        kept
        []
        mid.front
  unfolding unsupport kept contains
  Ready-mid = record {
    splits = λ x. ground arith;
    apart = λ x m. cc;
    fresh = tt;
    counts = λ i d found. omega (arith, mid-remaining i d found);
    sound = kept-founded;
  }

  -- a rule of the table whose counter is at zero has its antecedents among the survivors
  mid-met :
      (i : ℕ) (d : Derivation)
      → find o'.derivs i ≡ some d
      → mid.front.remaining i ≡ 0
      → (a : NodeId) → contains d.body a ≡ true
      → kept a ≡ true
  mid-met i d found z a m = unmet_of_zero kept d.body a (sym (mid-remaining i d found) ∙ z) m

  headed :
      (x : NodeId) (i : ℕ)
      → contains (o'.heads x) i ≡ true
      → mid.front.remaining i ≡ 0
      → Founded o'.derivs o'.base x
  headed x i m z =
      let listed = ap (λ l. contains l i) (left.indexed.heads x) in
      let (d, found, same) = find-ids_heading x o'.derivs i left.indexed.keys (sym listed ∙ m) in
      let e : d.conclusion ≡ x = ground arith in
      rw (← e) (
        derived d (find-InRules o'.derivs i d found)
          (λ a h. kept-founded a (mid-met i d found z a h)))

  Ready-final : Ready final Indexed-final kept
  Ready-final =
      Inv-reground o'.derivs Indexed-final.keys (Founded o'.derivs o'.base)
        (founded_rule o'.derivs o'.base) kept o'.heads o'.base (sorted over) mid (λ x b. fact b)
        headed Ready-mid

  final-remaining : (i : ℕ) → final.live.front.remaining i ≡ mid.front.remaining i
  final-remaining i = ap (λ f. f i) regrounded.remaining

  kept_grows : (x : NodeId) → kept x ≡ true → contains final.live.front.supported x ≡ true
  unfolding kept unsupport
  kept_grows x h = regrounded.grows x h

  -- a survivor's rule that is met was met before, so its conclusion is supported
  met_before :
      (i : ℕ) (d : Derivation)
      → find o'.derivs i ≡ some d
      → mid.front.remaining i ≡ 0
      → o.live.front.remaining i ≡ 0
  met_before i d found z =
      s.counters i d (was_there i d found)
      ∙ unmet_of_none (contains o.live.front.supported) d.body
          (λ a m. let k = mid-met i d found z a m in ground (arith, kept_lem a))

  -- off the over-deleted set, a rule that was met still is
  met_after :
      (i : ℕ) (d : Derivation)
      → find o'.derivs i ≡ some d
      → contains over d.conclusion ≡ false
      → o.live.front.remaining i ≡ 0
      → mid.front.remaining i ≡ 0
  met_after i d found stays z =
      mid-remaining i d found ∙ unmet_of_none kept d.body (λ a m. antecedent a m)
    where
      at : find o.derivs i ≡ some d
      at = was_there i d found

      antecedent : (a : NodeId) → contains d.body a ≡ true → kept a ≡ true
      antecedent a m =
          let sup =
            unmet_of_zero (contains o.live.front.supported) d.body a (sym (s.counters i d at) ∙ z)
              m in
          elim (Bool-cases (contains over a)) [
            | inl lost ↦
                let spread = spreads i d a found lost m (s.closed i d at z) in absurd (ground arith)
            | inr free ↦ ground (arith, kept_lem a)
          ]

  Closed-final : AllClosed final Indexed-final
  Closed-final i d found z = elim (Bool-cases (contains over d.conclusion)) [
    | inl lost ↦
        let listed = ap (λ l. contains l i) (left.indexed.heads d.conclusion) in
        let headed_by = contains-ids_heading d.conclusion o'.derivs i d left.indexed.keys found in
        regrounded.closed d.conclusion i (contains-sorted over d.conclusion ∙ lost)
          (listed ∙ headed_by ∙ ==_refl d.conclusion) (sym (final-remaining i) ∙ z)
    | inr stays ↦
        let z' = met_before i d found (sym (final-remaining i) ∙ z) in
        let sup = s.closed i d (was_there i d found) z' in
        kept_grows d.conclusion (ground (arith, kept_lem d.conclusion))
  ]

  -- the rules for a node that is not over-deleted fire as before
  fired_stays :
      (x : NodeId)
      → contains over x ≡ false
      → fired o'.derivs mid.front.remaining x ≡ fired o.derivs o.live.front.remaining x
  fired_stays x stays =
      fired_cong o'.derivs mid.front.remaining o.live.front.remaining x left.indexed.keys both
      ∙ unregistered
    where
      both :
          (i : ℕ) (d : Derivation)
          → find o'.derivs i ≡ some d
          → (d.conclusion == x) ≡ true
          → (mid.front.remaining i == 0) ≡ (o.live.front.remaining i == 0)
      both i d found same =
          let e : d.conclusion ≡ x = ground arith in
          let stays' : contains over d.conclusion ≡ false = rw e stays in
          Bool_ext _ _ (λ h. let z = met_before i d found (ground arith) in ground arith)
            (λ h. let z = met_after i d found stays' (ground arith) in ground arith)

      quiet :
          (i : ℕ) (d : Derivation)
          → find removed i ≡ some d
          → (d.conclusion == x && o.live.front.remaining i == 0) ≡ false
      quiet i d found = elim (Bool-cases (d.conclusion == x && o.live.front.remaining i == 0)) [
        | inl fires ↦
            let e : d.conclusion ≡ x = ground arith in
            let lost = rule_gone i d found (ground arith) in
            let lost' : contains over x ≡ true = rw e at lost in cc
        | inr fine ↦ fine
      ]

      unregistered :
          fired o'.derivs o.live.front.remaining x ≡ fired o.derivs o.live.front.remaining x
      unregistered =
          let q = λ (i : ℕ) (d : Derivation) (h : find removed i ≡ some d).
            ap (λ (c : Counted). d.conclusion == x && c.front.remaining i == 0) left_base.live
            ∙ quiet i d h in
          let f = left.fired_left x q in
          let here = ap (λ (c : Counted). fired o'.derivs c.front.remaining x) left_base.live in
          let there =
            ap (λ (c : Counted). fired ungrounded.1.derivs c.front.remaining x) left_base.live in
          let table = ap (λ t. fired t o.live.front.remaining x) left_base.derivs in
          sym here ∙ f ∙ there ∙ table

  Exact-final : Exact final.derivs (contains final.base) final.live
  Exact-final x =
      let rest = ap (λ f. fired o'.derivs f x) regrounded.remaining in
      let heads =
        ap (λ l. zeros l mid.front.remaining) (left.indexed.heads x)
        ∙ zeros-ids_heading o'.derivs mid.front.remaining x in
      let zeroed = unsupport-support_count over o' left.indexed x in
      elim (Bool-cases (contains over x)) [
        | inl lost ↦
            ground (arith, regrounded.support_count x, contains-sorted over x, heads, zeroed, rest)
        | inr stays ↦
            let count = ap (λ (c : Counted). c.support_count x) live in
            let base : contains o.base x ≡ contains o'.base x = same_base x stays in
            ground (
              arith,
              regrounded.support_count x,
              contains-sorted over x,
              zeroed,
              rest,
              count,
              s.exact x,
              fired_stays x stays,
              base,
            )
      ]
    where
      same_base : (x : NodeId) → contains over x ≡ false → contains o.base x ≡ contains o'.base x
      same_base x stays = elim (Bool-cases (contains o.base x)) [
        | inl was ↦ elim (Bool-cases (contains o'.base x)) [
          | inl now ↦ was ∙ sym now
          | inr lost ↦ absurd (let g = fact_gone x was lost in ground arith)
        ]
        | inr never ↦ ground (arith, base_left x)
      ]

  final_grounds :
      (x : NodeId) → contains final.base x ≡ true → contains final.live.front.supported x ≡ true
  final_grounds x b = elim (Bool-cases (contains over x)) [
    | inl lost ↦ regrounded.facts x (contains-sorted over x ∙ lost) b
    | inr stays ↦
        let sup = s.grounds x (ground (arith, base_left x)) in
        kept_grows x (ground (arith, kept_lem x))
  ]

  -- In a state with the invariant, a deletion of base facts and of rules that stand in the table,
  -- each under one number, gives a state with the invariant.
  pub delete-Stable : Stable (delete removed_base removed o)
  unfolding delete
  delete-Stable =
      run_cascade-Stable final Indexed-final kept Ready-final Closed-final Exact-final final_grounds

  pub delete-base :
      (x : NodeId)
      → contains (delete removed_base removed o).base x
        ≡ (not (contains removed_base x) && contains o.base x)
  unfolding delete run_cascade
  delete-base x = base_left x

  pub delete-find :
      (j : ℕ)
      → find (delete removed_base removed o).derivs j
        ≡ (if contains (ids removed) j then none else find o.derivs j)
  unfolding delete run_cascade
  delete-find j = find_left j
