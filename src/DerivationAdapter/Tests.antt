-- ===== src/DerivationAdapter/Tests.antt =====
-- A subgraph with a node of an inactive box, and the theorem at it.
use iknos.Prelude.{
  arith, ℕ, ◌≡◌, refl, true, false, Option, none, some, List, [], ◌∷◌, contains, keep, distinct,
  sorted, insertion_sort, insert_sorted, ltb, ◌==◌,
}
use iknos.TruthMaintenance.Graph.{NodeId, Supported, fact, derived, here}
use iknos.TruthMaintenance.Recompute.{well_founded_support}
use iknos.Confidence.{godel}
use iknos.DerivationAdapter.{
  NodeRow, DerivedRow, Degrees, ActiveSubgraph, row_of, is_active, add_row, group_rows,
  active_groups, assemble_subgraph,
}
use iknos.TruthMaintenance.Incremental.Insertion.{
  sort_derivs, deriv_sort_key, insert_deriv, lex_leb,
}
use iknos.TruthMaintenance.Recompute.Correct.{well_founded_support-iff-Supported}
use iknos.DerivationAdapter.Active.{assemble_subgraph_active}

abbrev degrees : Degrees ℕ
degrees = record { semiring = godel; same = ◌==◌; lesser = ltb }

abbrev row : NodeId → ℕ → NodeRow ℕ
row nid box = record { id = nid; box = some box; confidence = 900000 }

-- the node 2 lies in the box 5, which is not active; 3 rests on 1, and 4 on 2
abbrev rows : List (NodeRow ℕ)
rows = row 1 0 ∷ row 2 5 ∷ row 3 0 ∷ row 4 0 ∷ []

abbrev steps : List (DerivedRow ℕ)
steps =
    record { conclusion = 3; antecedent = 1; derivation = some 7; strength = 800000 }
    ∷ record { conclusion = 4; antecedent = 2; derivation = none; strength = 800000 }
    ∷ []

abbrev facts : List NodeId
facts = 1 ∷ 2 ∷ []

abbrev boxes : Option (List ℕ)
boxes = some (0 ∷ [])

abbrev sample : ActiveSubgraph ℕ
sample = assemble_subgraph degrees rows facts steps boxes

three_supported : Supported (contains sample.graph.base_facts) sample.graph.derivations 3
unfolding assemble_subgraph keep contains is_active row_of group_rows add_row active_groups
    sort_derivs insert_deriv deriv_sort_key lex_leb sorted distinct insertion_sort insert_sorted
three_supported = derived record { conclusion = 3; body = 1 ∷ [] } here (λ a m. fact (ground arith))

three_holds : contains (well_founded_support sample.graph) 3 ≡ true
three_holds = (well_founded_support-iff-Supported sample.graph 3).1 three_supported

assemble_subgraph_active_example : is_active rows boxes 3 ≡ true
assemble_subgraph_active_example =
    assemble_subgraph_active degrees rows facts steps boxes 3 three_holds

two_inactive : is_active rows boxes 2 ≡ false
unfolding is_active row_of contains
two_inactive = refl
