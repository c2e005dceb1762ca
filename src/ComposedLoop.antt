-- ===== src/ComposedLoop.antt =====
-- `stabilize` of core/composed_loop.py: a bounded fixpoint loop that detects oscillation.
pub mod Outcome
pub mod Region
pub mod Climbs
mod Tests
use iknos.Prelude.{
  ℕ, zero, suc, ◌≡◌, ◌↔◌, Bool, true, false, not, Option, none, some, List, [], ◌∷◌, ◌++◌, drop,
  length, if◌then◌else◌,
}

pub data Stability : Type 0 where
  converged oscillating diverged : Stability

pub record StabilizationResult {ℓ} (S : Type ℓ) : Type ℓ where
  pub status : Stability
  pub state : S
  pub iterations : ℕ
  pub trajectory : List S
  pub cycle : List S

-- A type that can key a dict: its `==` decides equality.
pub record Hashable {ℓ} (K : Type ℓ) : Type ℓ where
  pub same : K → K → Bool
  pub same_iff : (a b : K) → (same a b ≡ true) ↔ (a ≡ b)

-- the property `converged`
abbrev pub has_converged : Stability → Bool
has_converged converged = true
has_converged oscillating = false
has_converged diverged = false

module _ {ℓ} {S : Type ℓ} where
  unfoldable pub is_finding : StabilizationResult S → Bool
  is_finding r = not (has_converged r.status)

  abbrev region : Stability → StabilizationResult S → List S
  region converged r = []
  region oscillating r = r.cycle
  region diverged r = r.trajectory

  unfoldable pub unstable_region : StabilizationResult S → List S
  unstable_region r = region r.status r

-- `seen.get(k)`
module _ {κ} {K : Type κ} (keys : Hashable K) where
  unfoldable pub lookup : List (K × ℕ) → K → Option ℕ
  lookup [] k = none
  lookup ((k', n) ∷ seen) k = if keys.same k' k then some n else lookup seen k

-- `key` is the identity of a state; a caller that omits it has `K` the type of states.
module _ {ℓ κ} {S : Type ℓ} {K : Type κ} (keys : Hashable K) (step : S → S) (key : S → K) where
  -- The `for` loop: `left` iterations are left, `done` are done.
  unfoldable pub iterate_loop : (left done : ℕ) → S → List S → List (K × ℕ) → StabilizationResult S
  unfolding lookup
  iterate_loop zero done current trajectory seen = record {
    status = diverged;
    state = current;
    iterations = done;
    trajectory = trajectory;
    cycle = [];
  }
  iterate_loop (suc left) done current trajectory seen =
      let nxt = step current in
      elim (keys.same (key nxt) (key current)) [
        | true ↦ record {
          status = converged;
          state = nxt;
          iterations = suc done;
          trajectory = trajectory;
          cycle = [];
        }
        | false ↦ elim (lookup keys seen (key nxt)) [
          | some at ↦ record {
            status = oscillating;
            state = nxt;
            iterations = suc done;
            trajectory = trajectory ++ nxt ∷ [];
            cycle = drop at trajectory;
          }
          | none ↦
              iterate_loop left (suc done) nxt (trajectory ++ nxt ∷ [])
                ((key nxt, length trajectory) ∷ seen)
        ]
      ]

  -- `none` is the ValueError of a bound below one.
  unfoldable pub stabilize : S → ℕ → Option (StabilizationResult S)
  unfolding iterate_loop
  stabilize initial zero = none
  stabilize initial (suc bound) =
      some (iterate_loop (suc bound) 0 initial (initial ∷ []) ((key initial, 0) ∷ []))
