-- ===== src/DerivationAdapter/Active.antt =====
-- The subgraph of core/derivation_adapter.py supports active nodes only.
use iknos.Prelude.{
  ◌≡◌, ◌⊎◌, refl, sym, ap, ◌∙◌, inl, inr, Bool, true, Option, List, [], ◌∷◌, contains,
  contains-keep, Bool-cases, arith, ℕ,
}
use iknos.TruthMaintenance.Graph.{NodeId, Derivation, InRules, here, there, fact, derived}
use iknos.TruthMaintenance.Graph.Rules.{InRules-split}
use iknos.TruthMaintenance.Recompute.{well_founded_support}
use iknos.TruthMaintenance.Recompute.Correct.{well_founded_support-iff-Supported}
use iknos.TruthMaintenance.Incremental.Insertion.{
  lex_leb, deriv_sort_key, insert_deriv, sort_derivs,
}
use iknos.DerivationAdapter.{
  NodeRow, DerivedRow, Degrees, Group, is_active, group_rows, active_groups, derivation_of,
  derivations_of, assemble_subgraph,
}

InRules-insert :
    (d e : Derivation) (ds : List Derivation)
    → InRules d (insert_deriv e ds)
    → (e ≡ d) ⊎ InRules d ds
unfolding insert_deriv
InRules-insert d e [] here = inl refl
InRules-insert d e [] (there r) = inr r
InRules-insert d e (f ∷ ds) r = elim (Bool-cases (lex_leb (deriv_sort_key e) (deriv_sort_key f))) [
  | inl first ↦ let listed : InRules d (e ∷ f ∷ ds) = rw first at r in InRules-split listed
  | inr later ↦
      let listed : InRules d (f ∷ insert_deriv e ds) = rw later at r in
      elim (InRules-split listed) [
        | inl at ↦ inr (rw at here)
        | inr further ↦ elim (InRules-insert d e ds further) [
          | inl new ↦ inl new
          | inr old ↦ inr (there old)
        ]
      ]
]

InRules-sort_derivs :
    (d : Derivation) (ds : List Derivation) → InRules d (sort_derivs ds) → InRules d ds
unfolding sort_derivs
InRules-sort_derivs d [] r = r
InRules-sort_derivs d (e ∷ ds) r = elim (InRules-insert d e (sort_derivs ds) r) [
  | inl at ↦ rw at here
  | inr later ↦ there (InRules-sort_derivs d ds later)
]

module _ {V : Type 0} (degrees : Degrees V) where
  conclusion_active :
      (active : NodeId → Bool) (groups : List (Group V)) (d : Derivation)
      → InRules d (derivations_of degrees (active_groups degrees active groups))
      → active d.conclusion ≡ true
  unfolding active_groups
  conclusion_active active [] d r = elim r [ ]
  conclusion_active active (g ∷ groups) d r = elim (Bool-cases (active g.conclusion)) [
    | inl on ↦
        let listed : InRules d (
            derivation_of degrees g
            ∷ derivations_of degrees (active_groups degrees active groups)) =
          rw on at r in
        elim (InRules-split listed) [
          | inl first ↦ ap (λ (e : Derivation). active e.conclusion) (sym first) ∙ on
          | inr later ↦ conclusion_active active groups d later
        ]
    | inr off ↦ conclusion_active active groups d (rw off at r)
  ]

  module _ (nodes : List (NodeRow V)) (base_fact_ids : List NodeId) (rows : List (DerivedRow V))
      (boxes : Option (List ℕ)) where
    -- Only active nodes are well-founded in the assembled graph: a node whose row is gone or whose
    -- box is not active is not supported, whatever rests on it.
    pub assemble_subgraph_active :
        (x : NodeId)
        → contains
            (well_founded_support (assemble_subgraph degrees nodes base_fact_ids rows boxes).graph)
            x
          ≡ true
        → is_active nodes boxes x ≡ true
    unfolding assemble_subgraph
    assemble_subgraph_active x m =
        let g = (assemble_subgraph degrees nodes base_fact_ids rows boxes).graph in
        elim ((well_founded_support-iff-Supported g x).0 m) [
          | fact {n} e ↦ ground (arith, contains-keep (is_active nodes boxes) base_fact_ids n)
          | derived d r body ↦
              conclusion_active (is_active nodes boxes) (group_rows degrees rows []) d
                (InRules-sort_derivs d _ r)
        ]
