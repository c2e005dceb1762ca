-- ===== src/Confidence.antt =====
-- core/confidence.py: the semirings of confidence and the valuation over one, on the nodes that
-- truth maintenance certifies. A degree is of any type with a test for equality; the mappings of
-- base confidences and edge strengths are functions into Option.
pub mod Laws
mod Rounds
mod Ascent
pub mod Least
pub mod Godel
pub mod Closed
mod Tests
use iknos.Prelude.{
  ℕ, zero, suc, ◌+◌, Bool, true, false, ◌&&◌, Option, none, some, List, [], ◌∷◌, ◌++◌, map, length,
  min, max, contains, all, distinct, sorted, ◌==◌, if◌then◌else◌, unit,
}
use iknos.TruthMaintenance.Graph.{NodeId, Derivation, DerivationGraph}

pub record Semiring (V : Type 0) : Type 0 where
  pub times : V → V → V
  pub plus : V → V → V
  pub one : V
  pub zero : V

module _ {V : Type 0} where
  abbrev pub get_or : V → Option V → V
  get_or x none = x
  get_or x (some v) = v

  abbrev pub folded : (V → V → V) → V → List V → V
  folded op acc [] = acc
  folded op acc (v ∷ vs) = folded op (op acc v) vs

  module _ (semiring : Semiring V) where
    abbrev pub combine_body : List V → V
    combine_body values = folded semiring.times semiring.one values

    abbrev pub combine_alternatives : List V → V
    combine_alternatives values = folded semiring.plus semiring.zero values

-- Everything that one call of `valuate` reads.
pub record Valuation (V : Type 0) : Type 0 where
  pub graph : DerivationGraph
  pub supported : List NodeId
  pub base_confidence : NodeId → Option V
  pub strength : Derivation → Option V
  pub semiring : Semiring V
  pub same : V → V → Bool

module _ {V : Type 0} (call : Valuation V) where
  open call use {graph, supported, base_confidence, strength, semiring, same}

  -- the foundedness gate
  abbrev pub founded : Derivation → Bool
  founded d = contains supported d.conclusion && all (contains supported) d.body

  -- `grounds[node]`
  unfoldable pub grounds : NodeId → List Derivation → List Derivation
  grounds node [] = []
  grounds node (d ∷ ds) =
      let rest = grounds node ds in if founded d && d.conclusion == node then d ∷ rest else rest

  abbrev pub worth : (NodeId → V) → Derivation → V
  worth conf d =
      semiring.times (get_or semiring.one (strength d))
        (combine_body semiring (map conf (distinct d.body)))

  unfoldable pub contributions : (NodeId → V) → NodeId → List V
  contributions conf node =
      let derived = map (worth conf) (grounds node graph.derivations) in
      if contains graph.base_facts node
      then get_or semiring.one (base_confidence node) ∷ derived
      else derived

  -- one round of the loop, at one node
  unfoldable pub valued : (NodeId → V) → NodeId → V
  valued conf node = combine_alternatives semiring (contributions conf node)

  abbrev pub nodes : List NodeId
  nodes = sorted supported

  -- `nxt == conf`
  unfoldable pub stable : (NodeId → V) → Bool
  stable conf = all (λ n. same (valued conf n) (conf n)) nodes

  unfoldable pub rounds : ℕ → (NodeId → V) → Option (NodeId → V)
  rounds zero conf = none
  rounds (suc fuel) conf =
      let rest = rounds fuel (valued conf) in if stable conf then some conf else rest

  -- `none` is the `RuntimeError`
  unfoldable pub valuate : Option (List (NodeId × V))
  valuate = elim (rounds (length nodes + 2) (λ _. semiring.zero)) [
    | none ↦ none
    | some conf ↦ some (map (λ n. (n, conf n)) nodes)
  ]

-- GODEL, on millionths
abbrev pub godel : Semiring ℕ
godel = record { times = min; plus = max; one = unit; zero = 0 }
