-- ===== src/Qbaf/Solve.antt =====
-- `solve` of core/qbaf.py: what a result means, and convergence without cycles.
use iknos.Prelude.{
  ℕ, zero, suc, ◌+◌, ◌<◌, ◌≡◌, refl, sym, ◌∙◌, inl, inr, true, false, some, List, [], arith,
  contains, contains-sorted, all-contains, all_witness, sorted, ◌==◌, Bool-cases,
}
use iknos.Qbaf.{
  ArgId, Strengths, Baf, GradualSemantics, QbafResult, seed, sweep, settled, moving, solve_loop,
  solve, well_formed,
}

module _ {V : Type 0} (reals : Strengths V) (semantics : GradualSemantics V) (baf : Baf V)
    (base : List (ArgId × V)) where
  -- the strengths after `n` sweeps
  unfoldable pub after : ℕ → ArgId → V
  after zero = seed reals semantics baf base
  after (suc n) = sweep reals semantics baf base (after n)

  -- sweep `n` moved no argument by more than the tolerance
  abbrev pub Still : ℕ → Type 0
  Still n =
      (a : ArgId)
      → contains baf.arguments a ≡ true
      → reals.close (after (suc n) a) (after n a) ≡ true

  -- the two ways to end, within a bound
  pub data Solved (bound : ℕ) : QbafResult V → Type 0 where
    settles :
        (n : ℕ)
        → n < bound
        → ((m : ℕ) → m < n → ¬ Still m)
        → Still n
        → Solved bound record {
          acceptability = after (suc n);
          converged = true;
          iterations = suc n;
          unstable = [];
        }
    unsettled :
        ((n : ℕ) → n < bound → ¬ Still n)
        → Solved bound record {
          acceptability = after bound;
          converged = false;
          iterations = bound;
          unstable = moving reals semantics baf base (after bound);
        }

  Still-iff : (n : ℕ) → settled reals semantics baf base (after (suc n)) (after n) ≡ true → Still n
  unfolding after
  Still-iff n h a m =
      all-contains _ (sorted baf.arguments) a h (contains-sorted baf.arguments a ∙ m)

  moved : (n : ℕ) → settled reals semantics baf base (after (suc n)) (after n) ≡ false → ¬ Still n
  unfolding after
  moved n h still =
      let (a, m, moves) = all_witness _ (sorted baf.arguments) h in
      let stays = still a (sym (contains-sorted baf.arguments a) ∙ m) in cc

  Still-moving :
      (done : ℕ)
      → ((n : ℕ) → n < done → ¬ Still n)
      → ¬ Still done
      → (n : ℕ) → n < suc done
      → ¬ Still n
  Still-moving done before now n less = elim (Bool-cases (n == done)) [
    | inl last ↦ let at : n ≡ done = ground arith in rw at now
    | inr earlier ↦ before n (ground arith)
  ]

  loop-Solved :
      (bound left done : ℕ)
      → left + done ≡ bound
      → ((n : ℕ) → n < done → ¬ Still n)
      → Solved bound (solve_loop reals semantics baf base left done (after done))
  unfolding solve_loop after
  loop-Solved bound zero done e before =
      let at : done ≡ bound = omega arith in rw at (unsettled (rw (← at) before))
  loop-Solved bound (suc left) done e before =
      elim (Bool-cases (settled reals semantics baf base (after (suc done)) (after done))) [
        | inl still ↦
            rw (still, solve_loop) (settles done (omega arith) before (Still-iff done still))
        | inr moves ↦
            rw (moves, solve_loop)
              (loop-Solved bound left (suc done) (omega arith)
                (Still-moving done before (moved done moves)))
      ]

  -- With a bound of at least one and scores and strengths on [0, 1], `solve` returns within the
  -- bound: converged after the first sweep that moves no argument by more than the tolerance, or
  -- not converged after `bound` sweeps that all moved one, with the arguments that one more moves.
  pub solve-Solved :
      (bound : ℕ)
      → 0 < bound
      → well_formed reals semantics baf base ≡ true
      → (r : QbafResult V) × (solve reals semantics baf base bound ≡ some r) × Solved bound r
  unfolding solve after
  solve-Solved zero positive valid = absurd (omega arith)
  solve-Solved (suc bound) positive valid = (
    _,
    rw valid refl,
    loop-Solved (suc bound) (suc bound) 0 (omega arith) (λ n less. absurd (omega arith)),
  )
