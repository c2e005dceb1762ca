-- ===== src/Qbaf/Unital.antt =====
-- `solve` of core/qbaf.py returns on strengths of the unit interval, and stays in it.
use iknos.Prelude.{
  ℕ, zero, suc, ◌≡◌, refl, inl, inr, true, some, List, [], ◌∷◌, Each, ◌&&◌, contains, arith, ◌==◌,
  Bool-cases,
}
use iknos.Qbaf.{
  ArgId, Strengths, Edge, Baf, GradualSemantics, QbafResult, edges_in_unit, scores_in_unit,
  incoming, contributions, lookup_score, seed, sweep, settled, solve_loop, solve, well_formed,
}

-- what a semantics has to keep for its scores to be strengths
pub record Unital {V : Type 0} (reals : Strengths V) (semantics : GradualSemantics V) : Type 0 where
  pub nothing_in : reals.in_unit reals.nothing ≡ true
  pub times_in :
      (a b : V)
      → reals.in_unit a ≡ true
      → reals.in_unit b ≡ true
      → reals.in_unit (reals.times a b) ≡ true
  pub aggregate_in :
      (vs : List V)
      → Each (λ v. reals.in_unit v ≡ true) vs
      → reals.in_unit (semantics.aggregate vs) ≡ true
  pub combine_in :
      (a b c : V)
      → reals.in_unit a ≡ true
      → reals.in_unit b ≡ true
      → reals.in_unit c ≡ true
      → reals.in_unit (semantics.combine a b c) ≡ true

module _ {V : Type 0} (reals : Strengths V) where
  abbrev pub InUnit : V → Type 0
  InUnit v = reals.in_unit v ≡ true

  abbrev pub WeighedIn : Edge V → Type 0
  WeighedIn e = InUnit e.strength

  abbrev pub ScoredIn : ArgId × V → Type 0
  ScoredIn s = InUnit s.1

  Each-edges_in_unit : (es : List (Edge V)) → Each WeighedIn es → edges_in_unit reals es ≡ true
  Each-edges_in_unit [] ps = refl
  Each-edges_in_unit (e ∷ es) ps =
      let h = Each-edges_in_unit es ps.1 in let k = ps.0 in ground arith

  Each-scores_in_unit :
      (scores : List (ArgId × V)) → Each ScoredIn scores → scores_in_unit reals scores ≡ true
  Each-scores_in_unit [] ps = refl
  Each-scores_in_unit ((a, v) ∷ scores) ps =
      let h = Each-scores_in_unit scores ps.1 in let k = ps.0 in ground arith

  Each-incoming :
      (arguments : List ArgId) (es : List (Edge V)) (a : ArgId)
      → Each WeighedIn es
      → Each WeighedIn (incoming reals arguments es a)
  unfolding incoming
  Each-incoming arguments [] a ps = ps
  Each-incoming arguments (e ∷ es) a ps =
      elim (Bool-cases ((contains arguments e.src && contains arguments e.dst) && e.dst == a)) [
        | inl enters ↦ rw (enters, incoming) (ps.0, Each-incoming arguments es a ps.1)
        | inr misses ↦ rw (misses, incoming) (Each-incoming arguments es a ps.1)
      ]

  module _ (semantics : GradualSemantics V) (unital : Unital reals semantics) where
    Each-contributions :
        (prev : ArgId → V)
        → ((b : ArgId) → InUnit (prev b))
        → (es : List (Edge V)) → Each WeighedIn es
        → Each InUnit (contributions reals prev es)
    Each-contributions prev all_in [] ps = ps
    Each-contributions prev all_in (e ∷ es) ps = (
      unital.times_in e.strength (prev e.src) ps.0 (all_in e.src),
      Each-contributions prev all_in es ps.1,
    )

    lookup_score_in :
        (scores : List (ArgId × V)) (a : ArgId)
        → Each ScoredIn scores
        → InUnit (lookup_score reals.nothing scores a)
    lookup_score_in [] a ps = unital.nothing_in
    lookup_score_in ((b, v) ∷ scores) a ps = elim (Bool-cases (b == a)) [
      | inl at_b ↦ rw at_b ps.0
      | inr other ↦ rw other (lookup_score_in scores a ps.1)
    ]

    pub aggregate-InUnit :
        (arguments : List ArgId) (es : List (Edge V)) (prev : ArgId → V) (a : ArgId)
        → Each WeighedIn es
        → ((b : ArgId) → InUnit (prev b))
        → InUnit (semantics.aggregate (contributions reals prev (incoming reals arguments es a)))
    aggregate-InUnit arguments es prev a ps all_in = unital.aggregate_in _ (
        Each-contributions prev all_in (incoming reals arguments es a)
          (Each-incoming arguments es a ps))

    module _ (baf : Baf V) (base : List (ArgId × V)) (supports_in : Each WeighedIn baf.supports)
        (attacks_in : Each WeighedIn baf.attacks) (base_in : Each ScoredIn base) where
      seed_in : (a : ArgId) → InUnit (seed reals semantics baf base a)
      seed_in a = lookup_score_in base a base_in

      sweep_in :
          (prev : ArgId → V)
          → ((b : ArgId) → InUnit (prev b))
          → (a : ArgId) → InUnit (sweep reals semantics baf base prev a)
      unfolding sweep
      sweep_in prev all_in a =
          unital.combine_in _ _ _ (seed_in a)
            (aggregate-InUnit baf.arguments baf.supports prev a supports_in all_in)
            (aggregate-InUnit baf.arguments baf.attacks prev a attacks_in all_in)

      solve_loop_in :
          (left done : ℕ) (sigma : ArgId → V)
          → ((b : ArgId) → InUnit (sigma b))
          → (a : ArgId)
          → InUnit ((solve_loop reals semantics baf base left done sigma).acceptability a)
      unfolding solve_loop
      solve_loop_in zero done sigma all_in a = all_in a
      solve_loop_in (suc left) done sigma all_in a =
          let nxt = sweep reals semantics baf base sigma in
          elim (Bool-cases (settled reals semantics baf base nxt sigma)) [
            | inl stops ↦ rw (stops, solve_loop) (sweep_in sigma all_in a)
            | inr on ↦
                rw (on, solve_loop) (solve_loop_in left (suc done) nxt (sweep_in sigma all_in) a)
          ]

      pub solve-InUnit :
          (bound : ℕ)
          → (r : QbafResult V) × (solve reals semantics baf base (suc bound) ≡ some r)
            × ((a : ArgId) → InUnit (r.acceptability a))
      unfolding solve
      solve-InUnit bound =
          let fine : well_formed reals semantics baf base ≡ true =
            let s = Each-scores_in_unit base base_in in
            let p = Each-edges_in_unit baf.supports supports_in in
            let n = Each-edges_in_unit baf.attacks attacks_in in ground arith in
          (
            solve_loop reals semantics baf base (suc bound) 0 (seed reals semantics baf base),
            rw fine refl,
            solve_loop_in (suc bound) 0 (seed reals semantics baf base) seed_in,
          )
