-- ===== src/SymbolicGate/Conflicts.antt =====
-- What a query of core/symbolic_gate.py says, on its claims themselves and on the encoded program.
use mathlib.Core.List.{Memᴰ}
use iknos.Prelude.{ℕ, suc, ◌*◌, true, false, List, [], ◌∷◌, contains, if◌then◌else◌}
use iknos.TruthMaintenance.Graph.{NodeId, Derivation, Supported}
use iknos.SymbolicGate.{Atom, Rule, Lit, LitRule}

-- A literal as a node of a derivation graph: the two polarities of a claim are neighbours.
abbrev pub lit_node : Lit → NodeId
lit_node l = if l.pol then l.aid * 2 else suc (l.aid * 2)

abbrev pub lit_nodes : List Lit → List NodeId
lit_nodes [] = []
lit_nodes (l ∷ ls) = lit_node l ∷ lit_nodes ls

abbrev pub lit_derivations : List LitRule → List Derivation
lit_derivations [] = []
lit_derivations ((head, body) ∷ rules) =
    record { conclusion = lit_node head; body = lit_nodes body } ∷ lit_derivations rules

-- the least model of a Horn program over literals has a claim with both polarities
abbrev pub Clash : List Lit → List LitRule → Type 0
Clash facts rules =
    (aid : ℕ) × Supported (contains (lit_nodes facts)) (lit_derivations rules) (aid * 2)
    × Supported (contains (lit_nodes facts)) (lit_derivations rules) (suc (aid * 2))

-- what follows from stated claims by rules
pub data Follows (facts : List Atom) (rules : List Rule) : Atom → Type 0 where
  stated : (a : Atom) → Memᴰ a facts → Follows facts rules a
  concluded :
      (r : Rule)
      → Memᴰ r rules
      → ((b : Atom) → Memᴰ b r.body → Follows facts rules b)
      → Follows facts rules r.head

-- a claim follows, and so does its denial
abbrev pub Conflict : List Atom → List Rule → Type 0
Conflict facts rules =
    (k : ℕ) × Follows facts rules record { key = k; positive = true }
    × Follows facts rules record { key = k; positive = false }
