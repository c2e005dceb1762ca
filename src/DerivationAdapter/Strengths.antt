-- ===== src/DerivationAdapter/Strengths.antt =====
-- The degrees in the subgraph of core/derivation_adapter.py are those of its rows.
use iknos.Prelude.{
  ◌≡◌, ◌∙◌, inl, inr, Bool, true, false, some, List, [], ◌∷◌, Each, some_inv, Bool-cases,
  Option-cases, if◌then◌else◌, ◌==◌,
}
use iknos.TruthMaintenance.Graph.{NodeId, Derivation, same_deriv}
use iknos.DerivationAdapter.{
  NodeRow, DerivedRow, Degrees, Group, row_of, same_key, key_of, add_row, group_rows, active_groups,
  derivation_of, strength_of,
}

module _ {V : Type 0} where
  pub Each-row_of :
      (Q : NodeRow V → Type 0) (rows : List (NodeRow V)) (nid : NodeId) (r : NodeRow V)
      → Each Q rows
      → row_of rows nid ≡ some r
      → Q r
  unfolding row_of
  Each-row_of Q [] nid r qs e = cc
  Each-row_of Q (s ∷ rows) nid r qs e = elim (Option-cases (row_of rows nid)) [
    | inr (later, found) ↦ Each-row_of Q rows nid r qs.1 (found ∙ (rw (found, row_of) at e))
    | inl missing ↦ elim (Bool-cases (s.id == nid)) [
      | inl at_s ↦ let same : s ≡ r = some_inv (rw (missing, at_s, row_of) at e) in rw same at qs.0
      | inr other ↦ absurd (let h = rw (missing, other, row_of) at e in cc)
    ]
  ]

  module _ (P : V → Type 0) (degrees : Degrees V) where
    abbrev Strong : Group V → Type 0
    Strong g = P g.strength

    either : (b : Bool) (x y : V) → P x → P y → P (if b then x else y)
    either true x y p q = p
    either false x y p q = q

    Each-add_row :
        (row : DerivedRow V) (groups : List (Group V))
        → P row.strength
        → Each Strong groups
        → Each Strong (add_row degrees row groups)
    unfolding add_row
    Each-add_row row [] p ps = (p, record {})
    Each-add_row row (g ∷ groups) p ps = elim (Bool-cases (same_key g.key (key_of row))) [
      | inl joins ↦ rw (joins, add_row) (either _ row.strength g.strength p ps.0, ps.1)
      | inr apart ↦ rw (apart, add_row) (ps.0, Each-add_row row groups p ps.1)
    ]

    pub Each-group_rows :
        (rows : List (DerivedRow V)) (groups : List (Group V))
        → Each (λ (row : DerivedRow V). P row.strength) rows
        → Each Strong groups
        → Each Strong (group_rows degrees rows groups)
    unfolding group_rows
    Each-group_rows [] groups ps qs = qs
    Each-group_rows (row ∷ rows) groups ps qs =
        Each-group_rows rows (add_row degrees row groups) ps.1 (Each-add_row row groups ps.0 qs)

    pub Each-active_groups :
        (active : NodeId → Bool) (groups : List (Group V))
        → Each Strong groups
        → Each Strong (active_groups degrees active groups)
    unfolding active_groups
    Each-active_groups active [] ps = ps
    Each-active_groups active (g ∷ groups) ps = elim (Bool-cases (active g.conclusion)) [
      | inl on ↦ rw (on, active_groups) (ps.0, Each-active_groups active groups ps.1)
      | inr off ↦ rw (off, active_groups) (Each-active_groups active groups ps.1)
    ]

    pub Each-strength_of :
        (groups : List (Group V)) (d : Derivation) (v : V)
        → Each Strong groups
        → strength_of degrees groups d ≡ some v
        → P v
    unfolding strength_of
    Each-strength_of [] d v ps e = cc
    Each-strength_of (g ∷ groups) d v ps e = elim (Option-cases (strength_of degrees groups d)) [
      | inr (later, found) ↦
          Each-strength_of groups d v ps.1 (found ∙ (rw (found, strength_of) at e))
      | inl missing ↦ elim (Bool-cases (same_deriv (derivation_of degrees g) d)) [
        | inl at_g ↦
            let same : g.strength ≡ v = some_inv (rw (missing, at_g, strength_of) at e) in
            rw same at ps.0
        | inr other ↦ absurd (let h = rw (missing, other, strength_of) at e in cc)
      ]
    ]
