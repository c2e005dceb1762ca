-- ===== src/RevisionLoop/Converge.antt =====
-- Under its default policy the loop of core/revision_loop.py converges, whatever the gate decides,
-- and retracts refuted hypotheses only.
use iknos.Prelude.{
  ℕ, zero, suc, ◌≤◌, ◌<◌, ◌≡◌, refl, sym, ap, ◌∙◌, ◌⊎◌, inl, inr, true, false, ◌||◌, Option, none,
  some, List, [], ◌∷◌, ◌++◌, length, contains, contains-sorted, contains-append, contains-minus,
  sorted, sorted-Distinct, sorted_cong, distinct, insertion_sort, length-subset_le, ◌==◌, some_inv,
  Bool-cases, Option-cases, arith, all, all_witness, all-contains,
}
use iknos.TruthMaintenance.Graph.{NodeId}
use iknos.ComposedLoop.{converged, StabilizationResult, stabilize}
use iknos.ComposedLoop.Outcome.{
  iterate, Ends, converges, oscillates, diverges, Ends-of, stabilize-fixpoint,
}
use iknos.ComposedLoop.Climbs.{stabilize_climbs}
use iknos.RevisionLoop.{
  Engines, RevisionPlan, RevisionSnapshot, states, retract_authorised_refuted, newly, adjudicate_at,
  step, run,
}
use iknos.RevisionLoop.Passes.{
  Pass, adjudicate_at-Pass, refuted_by_gate, contains-newly, refuted_by_gate-has_verdict,
}

module _ {V : Type 0} (engines : Engines V) (given : RevisionPlan V) where
  -- the plan under the default policy
  abbrev pub by_default : RevisionPlan V
  by_default = record given { revise = retract_authorised_refuted }

  abbrev hypotheses : List NodeId
  hypotheses = given.hypothesis_ids

  -- some pass computed that `x` is refuted, and the gate authorised it
  pub record Justified (x : NodeId) : Type 0 where
    pub earlier : List NodeId
    pub snap : RevisionSnapshot V
    pub passed : adjudicate_at engines by_default earlier ≡ some snap
    pub refuted : refuted_by_gate snap.verdicts (given.decide snap.verdicts) x ≡ true

  -- a state of the loop: a set of hypotheses that were refuted
  pub record Held (r : List NodeId) : Type 0 where
    pub ids : List NodeId
    pub canonical : r ≡ sorted ids
    pub known : (x : NodeId) → contains r x ≡ true → contains hypotheses x ≡ true
    pub justified : (x : NodeId) → contains r x ≡ true → Justified x

  abbrev HeldState : Option (List NodeId) → Type 0
  HeldState none = (q : List NodeId) × (adjudicate_at engines by_default q ≡ none)
  HeldState (some r) = Held r

  abbrev height : Option (List NodeId) → ℕ
  height none = suc (length hypotheses)
  height (some r) = length r

  Held-length : (r : List NodeId) → Held r → length r ≤ length hypotheses
  Held-length r h = length-subset_le r hypotheses (rw h.canonical (sorted-Distinct h.ids)) h.known

  -- what the loop makes of a pass
  revised : List NodeId → RevisionSnapshot V → List NodeId
  revised r snap = sorted (retract_authorised_refuted snap.verdicts snap.decisions r)

  module _ (r : List NodeId) (h : Held r) (snap : RevisionSnapshot V)
      (passed : adjudicate_at engines by_default r ≡ some snap) where
    pass : Pass by_default r snap
    pass = adjudicate_at-Pass engines by_default r snap passed

    contains-revised :
        (x : NodeId)
        → contains (revised r snap) x
          ≡ (contains r x || refuted_by_gate snap.verdicts snap.decisions x)
    unfolding revised retract_authorised_refuted
    contains-revised x = ground (
      arith,
      contains-sorted (r ++ newly snap.verdicts snap.decisions) x,
      contains-append r (newly snap.verdicts snap.decisions) x,
      contains-newly snap.verdicts snap.decisions x,
    )

    revised_same : ((x : NodeId) → contains r x ≡ contains (revised r snap) x) → revised r snap ≡ r
    unfolding revised retract_authorised_refuted
    revised_same same =
        let listed = λ (x : NodeId).
          sym (contains-sorted (r ++ newly snap.verdicts snap.decisions) x)
          ∙ sym (same x)
          ∙ ap (λ l. contains l x) h.canonical
          ∙ contains-sorted h.ids x in
        sorted_cong (r ++ newly snap.verdicts snap.decisions) h.ids listed ∙ sym h.canonical

    refuted_known :
        (x : NodeId)
        → refuted_by_gate snap.verdicts snap.decisions x ≡ true
        → (contains hypotheses x ≡ true) × (contains r x ≡ false) × Justified x
    refuted_known x m =
        let active =
          pass.verdict_ids x (refuted_by_gate-has_verdict snap.verdicts snap.decisions x m) in
        let split = contains-minus hypotheses r x in
        (
          ground arith,
          ground arith,
          record {
            earlier = r;
            snap = snap;
            passed = passed;
            refuted = ap (λ d. refuted_by_gate snap.verdicts d x) (sym pass.decided) ∙ m;
          },
        )

    revised-Held : Held (revised r snap)
    unfolding revised
    revised-Held = record {
      ids = retract_authorised_refuted snap.verdicts snap.decisions r;
      canonical = refl;
      known = λ x m. (from x m).0;
      justified = λ x m. (from x m).1;
    }
      where
        from :
            (x : NodeId)
            → contains (revised r snap) x ≡ true
            → (contains hypotheses x ≡ true) × Justified x
        from x m = elim (Bool-cases (contains r x)) [
          | inl old ↦ (h.known x old, h.justified x old)
          | inr fresh ↦
              let split = contains-revised x in
              let found = refuted_known x (ground arith) in (found.0, found.2)
        ]

    -- the pass leaves the set alone, or adds to it
    revised_climbs : (revised r snap ≡ r) ⊎ (length r < length (revised r snap))
    unfolding contains
    revised_climbs = elim (Bool-cases (all (contains r) (revised r snap))) [
      | inl kept ↦ inl (
          revised_same λ x. elim (Bool-cases (contains (revised r snap) x)) [
            | inl m ↦ all-contains (contains r) (revised r snap) x kept m ∙ sym m
            | inr n ↦ let split = contains-revised x in ground arith
          ])
      | inr grown ↦
          let (x, m, fresh) = all_witness (contains r) (revised r snap) grown in
          inr (
            length-subset_le (x ∷ r) (revised r snap)
              (fresh, rw h.canonical (sorted-Distinct h.ids))
              (λ y n. elim (Bool-cases (x == y)) [
                | inl at ↦ let e : x ≡ y = ground arith in rw (← e) m
                | inr other ↦ let split = contains-revised y in ground arith
              ]))
    ]

  module _ where
    abbrev next : Option (List NodeId) → Option (List NodeId)
    next = step engines by_default

    next_passed :
        (r : List NodeId) (snap : RevisionSnapshot V)
        → adjudicate_at engines by_default r ≡ some snap
        → next (some r) ≡ some (revised r snap)
    unfolding step revised
    next_passed r snap passed = rw passed refl

    next_raised :
        (r : List NodeId) → adjudicate_at engines by_default r ≡ none → next (some r) ≡ none
    unfolding step
    next_raised r raised = rw raised refl

    next-none : next none ≡ none
    unfolding step
    next-none = refl

    HeldState-next : (s : Option (List NodeId)) → HeldState s → HeldState (next s)
    HeldState-next none h = rw next-none h
    HeldState-next (some r) h = elim (Option-cases (adjudicate_at engines by_default r)) [
      | inl fails ↦ rw (next_raised r fails) (r, fails)
      | inr (snap, passed) ↦ rw (next_passed r snap passed) (revised-Held r h snap passed)
    ]

    next_climbs :
        (s : Option (List NodeId)) → HeldState s → (next s ≡ s) ⊎ (height s < height (next s))
    next_climbs none h = inl next-none
    next_climbs (some r) h = elim (Option-cases (adjudicate_at engines by_default r)) [
      | inl fails ↦ inr (rw (next_raised r fails) (let low = Held-length r h in omega arith))
      | inr (snap, passed) ↦ elim (revised_climbs r h snap passed) [
        | inl same ↦ inl (next_passed r snap passed ∙ ap some same)
        | inr more ↦ inr (rw (next_passed r snap passed) more)
      ]
    ]

    HeldState-height : (s : Option (List NodeId)) → HeldState s → height s ≤ suc (length hypotheses)
    HeldState-height none h = omega arith
    HeldState-height (some r) h = let low = Held-length r h in omega arith

    abbrev at : ℕ → Option (List NodeId)
    at n = iterate states next (λ s. s) n (some [])

    HeldState-at : (n : ℕ) → HeldState (at n)
    unfolding iterate contains sorted distinct insertion_sort
    HeldState-at zero = record {
      ids = [];
      canonical = refl;
      known = λ x m. cc;
      justified = λ x m. absurd (ground arith);
    }
    HeldState-at (suc n) = HeldState-next (at n) (HeldState-at n)

    at_climbs : (n : ℕ) → (at (suc n) ≡ at n) ⊎ (height (at n) < height (at (suc n)))
    unfolding iterate
    at_climbs n = next_climbs (at n) (HeldState-at n)

    Ends-at :
        (bound : ℕ) (r : StabilizationResult (Option (List NodeId)))
        → Ends states next (λ s. s) (some []) bound r
        → (n : ℕ) × (r.state ≡ at n)
    Ends-at bound _ (converges n below fresh e) = (suc n, refl)
    Ends-at bound _ (oscillates n start below first fresh e) = (suc n, refl)
    Ends-at bound _ (diverges fresh) = (bound, refl)

    -- a state of the loop that its step leaves alone has no refutation left to act on
    settled_clear :
        (r : List NodeId)
        → Held r
        → (snap : RevisionSnapshot V) → adjudicate_at engines by_default r ≡ some snap
        → next (some r) ≡ some r
        → (x : NodeId) → refuted_by_gate snap.verdicts snap.decisions x ≡ false
    settled_clear r h snap passed fixed x =
        let same : revised r snap ≡ r = some_inv (sym (next_passed r snap passed) ∙ fixed) in
        elim (Bool-cases (refuted_by_gate snap.verdicts snap.decisions x)) [
          | inl refutes ↦
              let (_, new, _) = refuted_known r h snap passed x refutes in
              let split = contains-revised r h snap passed x in
              let back = ap (λ l. contains l x) same in absurd (ground arith)
          | inr clear ↦ clear
        ]

  stabilized :
      (bound : ℕ)
      → 0 < bound
      → (r : StabilizationResult (Option (List NodeId))) × (stabilize states next
            (λ s. s)
            (some [])
            bound
          ≡ some r)
  unfolding stabilize
  stabilized zero pos = absurd (omega arith)
  stabilized (suc bound) pos = (_, refl)

  -- the two outcomes of a run: an engine raised, or the loop converged
  pub data Outcome : Type 0 where
    raises : (q : List NodeId) → adjudicate_at engines by_default q ≡ none → Outcome
    rests :
        (result : StabilizationResult (Option (List NodeId))) (final : RevisionSnapshot V)
        → run engines by_default ≡ some (result, final)
        → result.status ≡ converged
        → Held final.retracted
        → ((x : NodeId) → refuted_by_gate final.verdicts final.decisions x ≡ false)
        → Outcome

  conclude :
      (result : StabilizationResult (Option (List NodeId)))
      → stabilize states next (λ s. s) (some []) given.max_iterations ≡ some result
      → result.status ≡ converged
      → next result.state ≡ result.state
      → HeldState result.state
      → Outcome
  unfolding run
  conclude result e status fixed held = elim (Option-cases result.state) [
    | inl none_left ↦ let h : HeldState none = rw none_left at held in raises h.0 h.1
    | inr (r, left) ↦
        let h : Held r = rw left at held in
        elim (Option-cases (adjudicate_at engines by_default r)) [
          | inl why ↦ raises r why
          | inr (final, passed) ↦
              let same = (adjudicate_at-Pass engines by_default r final passed).at in
              rests result final (rw (e, left, passed) refl) status (rw same h)
                (settled_clear r h final passed (rw left at fixed))
        ]
  ]

  -- With more iterations than there are hypotheses, and one for an exception, a run under the default
  -- policy converges unless an engine raises, whatever the gate decides. It has retracted
  -- hypotheses only, each refuted in some pass with the gate's authority, and the final pass
  -- leaves no authorised refutation.
  pub run_converges : suc (length given.hypothesis_ids) < given.max_iterations → Outcome
  unfolding run
  run_converges more =
      let (result, e) = stabilized given.max_iterations (omega arith) in
      let ends = Ends-of states next (λ s. s) (some []) given.max_iterations result e in
      let (n, state) = Ends-at given.max_iterations result ends in
      let status =
        stabilize_climbs states next (λ s. s) (λ a b p. p) height (some []) at_climbs
          given.max_iterations (suc (length hypotheses)) result
          (λ k. HeldState-height (at k) (HeldState-at k)) more e in
      let fixed =
        stabilize-fixpoint states next (λ s. s) (some []) given.max_iterations result (λ a b p. p) e
          status in
      let held : HeldState result.state = rw state (HeldState-at n) in
      conclude result e status fixed held
