-- ===== src/Qbaf/Acyclic.antt =====
-- A framework without cycles converges, in as many sweeps as it is deep.
use iknos.Prelude.{
  ℕ, zero, suc, ◌≤◌, ◌<◌, ◌≡◌, refl, ap, ◌∙◌, inl, inr, true, ◌&&◌, some, List, [], ◌∷◌, arith,
  contains, leb, ◌==◌, Bool-cases,
}
use iknos.Qbaf.{
  ArgId, Strengths, Edge, Baf, GradualSemantics, QbafResult, incoming, contributions, seed, sweep,
  solve, well_formed,
}
use iknos.Qbaf.Solve.{after, Still, Solved, settles, unsettled, solve-Solved}

-- every edge leads to a higher rank
abbrev pub Descends : {V : Type 0} → (ArgId → ℕ) → List (Edge V) → Type 0
Descends rank [] = Unit
Descends rank (e ∷ es) = (rank e.src < rank e.dst) × Descends rank es

module _ {V : Type 0} (reals : Strengths V) (semantics : GradualSemantics V) (baf : Baf V)
    (base : List (ArgId × V)) (rank : ArgId → ℕ) (supports : Descends rank baf.supports)
    (attacks : Descends rank baf.attacks) where
  contributions_cong :
      (f g : ArgId → V) (a : ArgId) (es : List (Edge V))
      → Descends rank es
      → ((b : ArgId) → rank b < rank a → f b ≡ g b)
      → contributions reals f (incoming reals baf.arguments es a)
        ≡ contributions reals g (incoming reals baf.arguments es a)
  unfolding incoming
  contributions_cong f g a [] down h = refl
  contributions_cong f g a (e ∷ es) down h =
      let rest = contributions_cong f g a es down.1 h in
      elim (Bool-cases
        ((contains baf.arguments e.src && contains baf.arguments e.dst) && e.dst == a)) [
          | inl into ↦
              let at : e.dst ≡ a = ground arith in
              let same = h e.src (rw at at down.0) in rw (into, same, rest) refl
          | inr other ↦ rw other rest
        ]

  -- after `n` sweeps the arguments of rank below `n` do not move
  rank-fixed :
      (n : ℕ) (a : ArgId)
      → rank a < n
      → after reals semantics baf base (suc n) a ≡ after reals semantics baf base n a
  unfolding after sweep
  rank-fixed zero a h = absurd (omega arith)
  rank-fixed (suc n) a h =
      let f = after reals semantics baf base (suc n) in
      let g = after reals semantics baf base n in
      let below = λ (b : ArgId) (k : rank b < rank a). rank-fixed n b (omega arith) in
      let against =
        λ (h : ArgId → V). contributions reals h (incoming reals baf.arguments baf.attacks a) in
      let combine = λ (xs ys : List V).
        semantics.combine (seed reals semantics baf base a) (semantics.aggregate xs)
          (semantics.aggregate ys) in
      ap (λ xs. combine xs (against f)) (contributions_cong f g a baf.supports supports below)
      ∙ ap (combine (contributions reals g (incoming reals baf.arguments baf.supports a)))
          (contributions_cong f g a baf.attacks attacks below)

  Still-deep :
      (depth : ℕ)
      → ((a : ArgId) → contains baf.arguments a ≡ true → rank a < depth)
      → ((x : V) → reals.close x x ≡ true)
      → Still reals semantics baf base depth
  Still-deep depth deep reflexive a m = rw (rank-fixed depth a (deep a m)) (reflexive _)

  Solved-acyclic :
      (depth bound : ℕ) (r : QbafResult V)
      → ((a : ArgId) → contains baf.arguments a ≡ true → rank a < depth)
      → ((x : V) → reals.close x x ≡ true)
      → depth < bound
      → Solved reals semantics baf base bound r
      → (r.converged ≡ true) × (r.iterations ≤ suc depth)
  Solved-acyclic depth bound _ deep reflexive less (settles n below first still) = (
    refl,
    elim (Bool-cases (leb n depth)) [
      | inl early ↦ ground arith
      | inr late ↦ absurd (first depth (ground arith) (Still-deep depth deep reflexive))
    ],
  )
  Solved-acyclic depth bound _ deep reflexive less (unsettled moves) =
      absurd (moves depth less (Still-deep depth deep reflexive))

  -- Where every edge leads to a higher rank and the ranks are below a depth, `solve` with a bound
  -- above the depth converges, within one sweep more than the depth.
  pub solve-acyclic :
      (depth bound : ℕ)
      → ((a : ArgId) → contains baf.arguments a ≡ true → rank a < depth)
      → ((x : V) → reals.close x x ≡ true)
      → depth < bound
      → well_formed reals semantics baf base ≡ true
      → (r : QbafResult V) × (solve reals semantics baf base bound ≡ some r)
        × (r.converged ≡ true)
        × (r.iterations ≤ suc depth)
  solve-acyclic depth bound deep reflexive less valid =
      let (r, e, solved) = solve-Solved reals semantics baf base bound (omega arith) valid in
      let (settles_here, soon) = Solved-acyclic depth bound r deep reflexive less solved in
      (r, e, settles_here, soon)
