-- ===== src/TruthMaintenance/Recompute.antt =====
-- `well_founded_support` of core/truth_maintenance.py, the full recompute that `RecomputeOracle`
-- answers with.
pub mod Seed
pub mod Correct
pub mod Cycles
use iknos.Prelude.{
  ℕ, zero, ◌+◌, List, [], ◌∷◌, Option, none, some, contains, distinct, sorted, ◌==◌, if◌then◌else◌,
  length,
}
use iknos.TruthMaintenance.Graph.{NodeId, Derivation, DerivationGraph}
use iknos.TruthMaintenance.Entries.{Entry, enumerate, find, ids_using}
use iknos.TruthMaintenance.Front.{Front, mark, propagate}

-- `len(d.body)`, of a frozenset
abbrev body_size : Option Derivation → ℕ
body_size none = 0
body_size (some d) = length (distinct d.body)

-- `remaining`, before the evaluation starts
unfoldable pub initial : List Entry → Front
unfolding find distinct
initial es = record { remaining = λ i. body_size (find es i); supported = []; worklist = [] }

-- `for fact in sorted(graph.base_facts): mark(fact)`
unfoldable pub mark_facts : List NodeId → Front → Front
unfolding mark
mark_facts [] f = f
mark_facts (n ∷ facts) f = mark_facts facts (mark n f)

-- `for i, count in enumerate(remaining): if count == 0: mark(conclusion)`
unfoldable pub mark_axioms : List Entry → Front → Front
unfolding mark
mark_axioms [] f = f
mark_axioms ((i, d) ∷ es) f = mark_axioms es (if f.remaining i == 0 then mark d.conclusion f else f)

unfoldable pub seeded : List Entry → List NodeId → Front
unfolding initial mark_facts mark_axioms sorted
seeded es facts = mark_axioms es (mark_facts (sorted facts) (initial es))

-- Each base fact and each rule puts at most one node on the queue, so this much fuel is enough.
unfoldable pub enough : List Entry → List NodeId → ℕ
unfolding sorted
enough es facts = length (sorted facts) + length es

unfoldable pub well_founded_support : DerivationGraph → List NodeId
unfolding seeded enough propagate enumerate
well_founded_support g =
    let es = enumerate 0 g.derivations in
    (propagate es (enough es g.base_facts) (seeded es g.base_facts)).supported
