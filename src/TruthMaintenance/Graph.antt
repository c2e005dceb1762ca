-- ===== src/TruthMaintenance/Graph.antt =====
-- The derivation graph of core/truth_maintenance.py, and what well-founded support means.
-- Node ids are opaque strings there, compared and sorted only: here they are numbers. A frozenset
-- is a list, read up to order and repetition.
pub mod Rules
use iknos.Prelude.{
  ℕ, ◌≡◌, refl, Bool, true, false, ◌&&◌, List, [], ◌∷◌, contains, all, ◌==◌, if◌then◌else◌,
}

abbrev pub NodeId : Type 0
NodeId = ℕ

pub record Derivation : Type 0 where
  pub conclusion : NodeId
  pub body : List NodeId

pub record DerivationGraph : Type 0 where
  pub base_facts : List NodeId
  pub derivations : List Derivation

-- Equality of two derivations, as Python's `==` on the frozen dataclass.
unfoldable pub same_deriv : Derivation → Derivation → Bool
same_deriv d e =
    d.conclusion == e.conclusion && (all (contains e.body) d.body && all (contains d.body) e.body)

-- `d in ds`, for a set of derivations
unfoldable pub has_deriv : List Derivation → Derivation → Bool
unfolding same_deriv
has_deriv [] d = false
has_deriv (e ∷ ds) d = if same_deriv e d then true else has_deriv ds d

-- Membership of a rule in a list, by position.
pub data InRules (d : Derivation) : List Derivation → Type 0 where
  here : {ds : List Derivation} → InRules d (d ∷ ds)
  there : {e : Derivation} {ds : List Derivation} → InRules d ds → InRules d (e ∷ ds)

-- The specification: a node is supported if it is a base fact, or the conclusion of a rule whose
-- whole body is supported. A derivation of `Supported` is finite, so a cycle alone supports none.
pub data Supported (base : NodeId → Bool) (ds : List Derivation) : NodeId → Type 0 where
  fact : {n : NodeId} → base n ≡ true → Supported base ds n
  derived :
      (d : Derivation)
      → InRules d ds
      → ((a : NodeId) → contains d.body a ≡ true → Supported base ds a)
      → Supported base ds d.conclusion
