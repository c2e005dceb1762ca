-- ===== src/ComposedLoop/Tests.antt =====
-- Runs of `stabilize`, and the theorems at them.
use iknos.Prelude.{ℕ, zero, suc, ◌-◌, ◌<◌, ◌≡◌, ◌≢◌, refl, some, [], ◌∷◌, ◌==◌, ==_iff, arith}
use iknos.ComposedLoop.{
  converged, oscillating, diverged, StabilizationResult, Hashable, stabilize, lookup,
}
use iknos.ComposedLoop.Outcome.{iterate, Ends, stabilize-Ends, stabilize-finite}

abbrev nat_keys : Hashable ℕ
nat_keys = record { same = λ a b. a == b; same_iff = ==_iff }

abbrev countdown : ℕ → ℕ
countdown n = n - 1

abbrev toggle : ℕ → ℕ
toggle n = 1 - n

abbrev at_zero : StabilizationResult ℕ
at_zero = record {
  status = converged;
  state = 0;
  iterations = 3;
  trajectory = 2 ∷ 1 ∷ 0 ∷ [];
  cycle = [];
}

abbrev toggled : StabilizationResult ℕ
toggled = record {
  status = oscillating;
  state = 0;
  iterations = 2;
  trajectory = 0 ∷ 1 ∷ 0 ∷ [];
  cycle = 0 ∷ 1 ∷ [];
}

countdown_runs : stabilize nat_keys countdown (λ n. n) 2 5 ≡ some at_zero
unfolding stabilize lookup
countdown_runs = refl

toggle_runs : stabilize nat_keys toggle (λ n. n) 0 5 ≡ some toggled
unfolding stabilize lookup
toggle_runs = refl

toggle_below : (n : ℕ) → iterate nat_keys toggle (λ n. n) n 0 < 2
unfolding iterate
toggle_below zero = omega arith
toggle_below (suc n) = omega arith

stabilize-Ends_example :
    (r : StabilizationResult ℕ) × (stabilize nat_keys countdown (λ n. n) 2 5 ≡ some r)
    × Ends nat_keys countdown (λ n. n) 2 5 r
stabilize-Ends_example = stabilize-Ends nat_keys countdown (λ n. n) 2 5 (omega arith)

stabilize-finite_example : toggled.status ≢ diverged
stabilize-finite_example =
    stabilize-finite nat_keys toggle (λ n. n) 0 5 (λ n. n) 2 toggled (λ a b e. e) toggle_below
      (omega arith) toggle_runs
