-- ===== src/TruthMaintenance/Incremental/Apply/Sequence.antt =====
-- `IncrementalOracle.apply` over a sequence of snapshots.
use iknos.Prelude.{
  ℕ, ◌+◌, ◌<◌, ◌≡◌, refl, sym, ◌∙◌, ◌↔◌, Bool, true, ◌&&◌, inl, inr, List, [], ◌∷◌, ◌++◌, some,
  arith, contains, all, all-contains, ◌==◌, Bool-cases, one_if, Distinct, unmet_of, unmet_of_zero,
  unmet_of_none, all_intro, Bool_ext,
}
use iknos.TruthMaintenance.Graph.{
  NodeId, Derivation, DerivationGraph, InRules, here, there, Supported, fact, derived,
}
use iknos.TruthMaintenance.Entries.{Entry, find, ids, rules, contains-ids}
use iknos.TruthMaintenance.Recompute.{well_founded_support}
use iknos.TruthMaintenance.Incremental.State.{Oracle, init, support_count}
use iknos.TruthMaintenance.Incremental.Cascade.{fired}
use iknos.TruthMaintenance.Incremental.Stable.{Stable, Stable-complete}
use iknos.TruthMaintenance.Incremental.Apply.{apply, apply_all}
use iknos.TruthMaintenance.Incremental.Apply.Correct.{
  Matches, apply-Stable, apply-Matches, Stable-recompute, init-Stable,
}

apply_all-Stable : (gs : List DerivationGraph) (o : Oracle) → Stable o → Stable (apply_all gs o)
unfolding apply_all
apply_all-Stable [] o s = s
apply_all-Stable (g ∷ gs) o s = apply_all-Stable gs (apply g o) (apply-Stable g o s)

apply_all-Matches :
    (gs : List DerivationGraph) (g : DerivationGraph) (o : Oracle)
    → Stable o
    → Matches g (apply_all (gs ++ g ∷ []) o)
unfolding apply_all
apply_all-Matches [] g o s = apply-Matches g o s
apply_all-Matches (h ∷ gs) g o s = apply_all-Matches gs g (apply h o) (apply-Stable h o s)

-- After any sequence of snapshots, the retained supported set has the nodes that a recompute from
-- scratch of the last snapshot gives.
pub apply_all-recompute :
    (gs : List DerivationGraph) (g : DerivationGraph) (x : NodeId)
    → contains (apply_all (gs ++ g ∷ []) init).live.front.supported x
      ≡ contains (well_founded_support g) x
apply_all-recompute gs g x =
    Stable-recompute g (apply_all (gs ++ g ∷ []) init) x
      (apply_all-Stable (gs ++ g ∷ []) init init-Stable) (apply_all-Matches gs g init init-Stable)

-- the rules that conclude `x` and whose whole body passes a test
abbrev pub groundings : (NodeId → Bool) → List Derivation → NodeId → ℕ
groundings p [] x = 0
groundings p (d ∷ ds) x = one_if (d.conclusion == x && all p d.body) + groundings p ds x

unmet_zero : (p : NodeId → Bool) (body : List NodeId) → (unmet_of p body == 0) ≡ all p body
unmet_zero p body =
    Bool_ext _ _ (λ h. all_intro p body (λ a m. unmet_of_zero p body a (ground arith) m))
      (λ h. ground (arith, unmet_of_none p body (λ a m. all-contains p body a h m)))

fired-groundings :
    (es : List Entry) (unmet : ℕ → ℕ) (p : NodeId → Bool) (x : NodeId)
    → Distinct (ids es)
    → ((i : ℕ) (d : Derivation) → find es i ≡ some d → unmet i ≡ unmet_of p d.body)
    → fired es unmet x ≡ groundings p (rules es) x
unfolding fired find ids contains
fired-groundings [] unmet p x k h = refl
fired-groundings ((i, d) ∷ es) unmet p x k h =
    let rest =
      fired-groundings es unmet p x k.1 (λ j e f. h j e (ground (arith, contains-ids es j e f))) in
    let first = h i d (ground arith) in ground (arith, unmet_zero p d.body)

all_cong :
    (p q : NodeId → Bool) (xs : List NodeId) → ((a : NodeId) → p a ≡ q a) → all p xs ≡ all q xs
unfolding all
all_cong p q [] h = refl
all_cong p q (x ∷ xs) h = ground (arith, h x, all_cong p q xs h)

groundings_cong :
    (p q : NodeId → Bool) (ds : List Derivation) (x : NodeId)
    → ((a : NodeId) → p a ≡ q a)
    → groundings p ds x ≡ groundings q ds x
groundings_cong p q [] x h = refl
groundings_cong p q (d ∷ ds) x h = ground (arith, all_cong p q d.body h, groundings_cong p q ds x h)

groundings_positive :
    (p : NodeId → Bool) (ds : List Derivation) (d : Derivation)
    → InRules d ds
    → all p d.body ≡ true
    → 0 < groundings p ds d.conclusion
groundings_positive p [] d m h = elim m [ ]
groundings_positive p (e ∷ ds) _ here h = ground arith
groundings_positive p (e ∷ ds) d (there m) h = omega (arith, groundings_positive p ds d m h)

groundings_witness :
    (p : NodeId → Bool) (ds : List Derivation) (x : NodeId)
    → 0 < groundings p ds x
    → (d : Derivation) × InRules d ds × (d.conclusion ≡ x) × (all p d.body ≡ true)
groundings_witness p [] x h = absurd (omega arith)
groundings_witness p (d ∷ ds) x h = elim (Bool-cases (d.conclusion == x && all p d.body)) [
  | inl this ↦ (d, here, ground arith, ground arith)
  | inr other ↦
      let (e, m, heads, body) = groundings_witness p ds x (ground arith) in
      (e, there m, heads, body)
]

module _ (o : Oracle) (s : Stable o) (x : NodeId) where
  Stable-support_count :
      support_count o x
      ≡ one_if (contains o.base x) + groundings (contains o.live.front.supported) (rules o.derivs) x
  unfolding support_count
  Stable-support_count = ground (
    arith,
    s.exact x,
    fired-groundings o.derivs o.live.front.remaining (contains o.live.front.supported) x
        s.indexed.keys s.counters,
  )

  counted : Supported (contains o.base) (rules o.derivs) x → 0 < support_count o x
  counted (fact h) = ground (arith, Stable-support_count)
  counted (derived d m body) =
      let all_in =
        all_intro (contains o.live.front.supported) d.body
          (λ a h. Stable-complete o s (body a h)) in
      ground (
        arith,
        Stable-support_count,
        groundings_positive (contains o.live.front.supported) (rules o.derivs) d m all_in,
      )

  supported_counted : 0 < support_count o x → contains o.live.front.supported x ≡ true
  supported_counted h = elim (Bool-cases (contains o.base x)) [
    | inl grounded ↦ s.grounds x grounded
    | inr derived_only ↦
        let (d, m, heads, body) =
          groundings_witness (contains o.live.front.supported) (rules o.derivs) x
            (ground (arith, Stable-support_count)) in
        Stable-complete o s (
          rw (← heads) (
            derived d m
              (λ a h. s.sound a (all-contains (contains o.live.front.supported) d.body a body h))))
  ]

-- After any sequence of snapshots, the support count of a node is the number of its independent
-- groundings in the last one: one if it is a base fact, and one for each retained rule that
-- concludes it and whose whole body is well-founded.
pub support_count-exact :
    (gs : List DerivationGraph) (g : DerivationGraph) (x : NodeId)
    → support_count (apply_all (gs ++ g ∷ []) init) x
      ≡ one_if (contains g.base_facts x)
        + groundings
            (contains (well_founded_support g))
            (rules (apply_all (gs ++ g ∷ []) init).derivs)
            x
support_count-exact gs g x =
    let o = apply_all (gs ++ g ∷ []) init in
    let s = apply_all-Stable (gs ++ g ∷ []) init init-Stable in
    let now = apply_all-Matches gs g init init-Stable in
    ground (
      arith,
      Stable-support_count o s x,
      now.base x,
      groundings_cong (contains o.live.front.supported) (contains (well_founded_support g))
          (rules o.derivs) x (apply_all-recompute gs g),
    )

-- After any sequence of snapshots, the support count of a node is positive exactly if the
-- recompute of the last one supports the node.
pub support_count-iff-recompute :
    (gs : List DerivationGraph) (g : DerivationGraph) (x : NodeId)
    → (0 < support_count (apply_all (gs ++ g ∷ []) init) x)
      ↔ (contains (well_founded_support g) x ≡ true)
support_count-iff-recompute gs g x =
    let o = apply_all (gs ++ g ∷ []) init in
    let s = apply_all-Stable (gs ++ g ∷ []) init init-Stable in
    let same = apply_all-recompute gs g x in
    (λ h. sym same ∙ supported_counted o s x h, λ h. counted o s x (s.sound x (same ∙ h)))
