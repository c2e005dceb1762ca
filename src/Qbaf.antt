-- ===== src/Qbaf.antt =====
-- core/qbaf.py: gradual semantics on a bipolar argumentation framework.
-- A strength is a float there: here a type with the operations that the engine uses of it, so that
-- the theorems hold for each arithmetic, rounding included.
pub mod Solve
pub mod Acyclic
pub mod DfQuad
pub mod State
pub mod Unital
mod Tests
use iknos.Prelude.{
  ℕ, zero, suc, Bool, true, false, not, ◌&&◌, ◌||◌, Option, none, some, List, [], ◌∷◌, contains,
  keep, all, sorted, any, ◌==◌, if◌then◌else◌, ℤ,
}
use iknos.Intentional.{
  HypothesisState, supported, unsupported, refuted, AcceptabilityBand, band_false, band_implausible,
  band_plausible, band_true, band,
}

abbrev pub ArgId : Type 0
ArgId = ℕ

-- the arithmetic of strengths, with the tests of the engine: `0.0 <= x <= 1.0`, and
-- `abs(x - y) <= tolerance`
pub record Strengths (V : Type 0) : Type 0 where
  pub nothing : V
  pub times : V → V → V
  pub in_unit : V → Bool
  pub close : V → V → Bool

pub record Edge (V : Type 0) : Type 0 where
  pub src : ArgId
  pub dst : ArgId
  pub strength : V

pub record Baf (V : Type 0) : Type 0 where
  pub arguments : List ArgId
  pub supports : List (Edge V)
  pub attacks : List (Edge V)

-- The name of a semantics is for the audit trail only.
pub record GradualSemantics (V : Type 0) : Type 0 where
  pub aggregate : List V → V
  pub combine : V → V → V → V

pub record QbafResult (V : Type 0) : Type 0 where
  pub acceptability : ArgId → V
  pub converged : Bool
  pub iterations : ℕ
  pub unstable : List ArgId

abbrev pub lookup_score : {V : Type 0} → V → List (ArgId × V) → ArgId → V
lookup_score default [] a = default
lookup_score default ((b, v) ∷ scores) a = if b == a then v else lookup_score default scores a

module _ {V : Type 0} (reals : Strengths V) where
  -- `_check_unit_interval` on each edge of `_incoming_index`, and on each base score
  abbrev pub edges_in_unit : List (Edge V) → Bool
  edges_in_unit [] = true
  edges_in_unit (e ∷ es) = reals.in_unit e.strength && edges_in_unit es

  abbrev pub scores_in_unit : List (ArgId × V) → Bool
  scores_in_unit [] = true
  scores_in_unit ((a, v) ∷ scores) = reals.in_unit v && scores_in_unit scores

  -- `_incoming_index`: the edges into `a` with both ends in the framework
  unfoldable pub incoming : List ArgId → List (Edge V) → ArgId → List (Edge V)
  incoming arguments [] a = []
  incoming arguments (e ∷ es) a =
      let rest = incoming arguments es a in
      if (contains arguments e.src && contains arguments e.dst) && e.dst == a
      then e ∷ rest
      else rest

  -- `e.strength * prev[e.src] for e in edges`
  abbrev pub contributions : (ArgId → V) → List (Edge V) → List V
  contributions prev [] = []
  contributions prev (e ∷ es) = reals.times e.strength (prev e.src) ∷ contributions prev es

  module _ (semantics : GradualSemantics V) (baf : Baf V) (base : List (ArgId × V)) where
    -- `sigma` before the first sweep
    abbrev pub seed : ArgId → V
    seed a = lookup_score reals.nothing base a

    unfoldable pub sweep : (ArgId → V) → ArgId → V
    unfolding incoming
    sweep prev a =
        semantics.combine (seed a)
          (semantics.aggregate (contributions prev (incoming baf.arguments baf.supports a)))
          (semantics.aggregate (contributions prev (incoming baf.arguments baf.attacks a)))

    -- `delta <= tolerance`: the largest change is within the tolerance if each change is
    abbrev pub settled : (ArgId → V) → (ArgId → V) → Bool
    settled nxt sigma = all (λ a. reals.close (nxt a) (sigma a)) (sorted baf.arguments)

    -- the arguments that one more sweep moves
    abbrev pub moving : (ArgId → V) → List ArgId
    moving sigma = keep (λ a. not (reals.close (sweep sigma a) (sigma a))) (sorted baf.arguments)

    -- the `for` loop: `left` iterations are left, `done` are done
    unfoldable pub solve_loop : (left done : ℕ) → (ArgId → V) → QbafResult V
    unfolding sweep keep all sorted
    solve_loop zero done sigma = record {
      acceptability = sigma;
      converged = false;
      iterations = done;
      unstable = moving sigma;
    }
    solve_loop (suc left) done sigma =
        let nxt = sweep sigma in
        elim (settled nxt sigma) [
          | true ↦ record {
            acceptability = nxt;
            converged = true;
            iterations = suc done;
            unstable = [];
          }
          | false ↦ solve_loop left (suc done) nxt
        ]

    abbrev pub well_formed : Bool
    well_formed = scores_in_unit base && (edges_in_unit baf.supports && edges_in_unit baf.attacks)

    -- `none` is a ValueError: of the bound, of a base score or of an edge
    unfoldable pub solve : ℕ → Option (QbafResult V)
    unfolding solve_loop
    solve zero = none
    solve (suc bound) = if well_formed then some (solve_loop (suc bound) 0 seed) else none

  -- `aggregate_evidence`, for one argument
  unfoldable pub aggregate_evidence : GradualSemantics V → Baf V → (ArgId → V) → ArgId → V × V
  unfolding incoming
  aggregate_evidence semantics baf strengths a = (
    semantics.aggregate (contributions strengths (incoming baf.arguments baf.supports a)),
    semantics.aggregate (contributions strengths (incoming baf.arguments baf.attacks a)),
  )

-- `band(acceptability) in (PLAUSIBLE, TRUE)`
abbrev pub plausible : AcceptabilityBand → Bool
plausible band_false = false
plausible band_implausible = false
plausible band_plausible = true
plausible band_true = true

-- `none` is the ValueError of `band`; the last test is `aggregate_attack > aggregate_support`.
unfoldable pub classify_state : ℤ → (out_argued : Bool) → Option HypothesisState
unfolding band
classify_state acceptability out_argued = elim (band acceptability) [
  | none ↦ none
  | some b ↦ some (if plausible b then supported else if out_argued then refuted else unsupported)
]
