-- ===== src/Qbaf/Tests.antt =====
-- The engine of core/qbaf.py on a small arithmetic, and the theorems at it.
use iknos.Prelude.{
  ◌⊎◌, ◌*◌, unit, ℕ, suc, ◌+◌, ◌-◌, ◌≤◌, ◌<◌, min, max, ◌≡◌, refl, true, some, List, [], ◌∷◌, arith,
  contains, leb, ◌==◌, ==_refl,
}
use iknos.Qbaf.{ArgId, Strengths, Baf, GradualSemantics, QbafResult, solve}
use iknos.Qbaf.Solve.{Solved, solve-Solved}
use iknos.Qbaf.Acyclic.{solve-acyclic}
use iknos.Qbaf.DfQuad.{df_quad_combine, Raised, Lowered, df_quad_combine_lem}

-- strengths in hundredths, with a coarse product
abbrev hundredths : Strengths ℕ
hundredths = record { nothing = 0; times = min; in_unit = λ x. leb x 100; close = λ x y. x == y }

abbrev largest : List ℕ → ℕ
largest [] = 0
largest (x ∷ xs) = max x (largest xs)

abbrev coarse : GradualSemantics ℕ
coarse = record { aggregate = largest; combine = λ base for against. base + for - against }

-- 0 supports 1, and 1 attacks 2
abbrev chain : Baf ℕ
chain = record {
  arguments = 0 ∷ 1 ∷ 2 ∷ [];
  supports = record { src = 0; dst = 1; strength = 90 } ∷ [];
  attacks = record { src = 1; dst = 2; strength = 50 } ∷ [];
}

abbrev scores : List (ArgId × ℕ)
scores = (0, 30) ∷ (2, 40) ∷ []

chain_deep : (a : ArgId) → contains chain.arguments a ≡ true → a < 3
unfolding contains
chain_deep a m = ground arith

solve-Solved_example :
    (r : QbafResult ℕ) × (solve hundredths coarse chain scores 100 ≡ some r)
    × Solved hundredths coarse chain scores 100 r
solve-Solved_example = solve-Solved hundredths coarse chain scores 100 (omega arith) refl

solve-acyclic_example :
    (r : QbafResult ℕ) × (solve hundredths coarse chain scores 100 ≡ some r)
    × (r.converged ≡ true)
    × (r.iterations ≤ suc 3)
solve-acyclic_example =
    solve-acyclic hundredths coarse chain scores (λ a. a) (omega arith, tt) (omega arith, tt) 3 100
      chain_deep ==_refl (omega arith) refl

abbrev score : ℕ
score = 400000

abbrev strong : ℕ
strong = 700000

abbrev weak : ℕ
weak = 200000

df_quad_combine_lem_example :
    (df_quad_combine score strong weak ≤ unit * unit)
    × (((strong ≡ weak) × (df_quad_combine score strong weak ≡ score * unit))
        ⊎ (((weak < strong) × Raised score (df_quad_combine score strong weak))
            ⊎ ((strong < weak) × Lowered score (df_quad_combine score strong weak))))
    × (df_quad_combine (unit - score) weak strong + df_quad_combine score strong weak ≡ unit * unit)
df_quad_combine_lem_example =
    df_quad_combine_lem score strong weak (omega arith) (omega arith) (omega arith)
