-- ===== src/SymbolicGate/Verdict/Solver.antt =====
-- A solver with the documented behaviour: the least model by the recompute of Layer A.
use iknos.Prelude.{
  ℕ, zero, suc, ◌*◌, ◌≡◌, refl, inl, inr, Bool, true, not, ◌&&◌, List, contains, all, all-contains,
  all_witness, Bool-cases, arith,
}
use iknos.TruthMaintenance.Recompute.{well_founded_support}
use iknos.TruthMaintenance.Recompute.Correct.{well_founded_support-iff-Supported}
use iknos.SymbolicGate.{Lit, LitRule}
use iknos.SymbolicGate.Verdict.{program, Answers}

abbrev even : ℕ → Bool
even zero = true
even (suc n) = not (even n)

even_double : (n : ℕ) → even (n * 2) ≡ true
even_double zero = refl
even_double (suc n) =
    let next : suc n * 2 ≡ suc (suc (n * 2)) = omega arith in
    rw next (ground (arith, even_double n))

half : (n : ℕ) → even n ≡ true → (k : ℕ) × (n ≡ k * 2)
half zero h = (0, omega arith)
half (suc zero) h = cc
half (suc (suc n)) h = let (k, twice) = half n (ground arith) in (suc k, omega arith)

-- no even node of the model has its neighbour in the model
abbrev pub polarity_free : List ℕ → Bool
polarity_free model = all (λ n. not (even n && contains model (suc n))) model

abbrev pub least_model_solver : List Lit → List LitRule → Bool
least_model_solver facts rules = polarity_free (well_founded_support (program facts rules))

pub least_model_solver-Answers : Answers least_model_solver
least_model_solver-Answers facts rules =
    let g = program facts rules in
    let model = well_founded_support g in
    (
      λ unsat.
          let (n, m, f) = all_witness (λ n. not (even n && contains model (suc n))) model unsat in
          let (k, twice) = half n (ground arith) in
          let up : contains model (suc n) ≡ true = ground arith in
          (
            k,
            (well_founded_support-iff-Supported g (k * 2)).0 (rw (← twice) m),
            (well_founded_support-iff-Supported g (suc (k * 2))).0 (rw (← twice) up),
          ),
      λ clash.
          let (k, yes_node, no_node) = clash in
          let m = (well_founded_support-iff-Supported g (k * 2)).1 yes_node in
          let n = (well_founded_support-iff-Supported g (suc (k * 2))).1 no_node in
          elim (Bool-cases (polarity_free model)) [
            | inl sat ↦
                let no =
                  all-contains (λ n. not (even n && contains model (suc n))) model (k * 2) sat m in
                ground (arith, even_double k)
            | inr unsat ↦ unsat
          ],
    )
