-- ===== src/DerivationAdapter.antt =====
-- core/derivation_adapter.py, without its reads of the database: from the rows of the active graph to
-- the inputs of truth maintenance and of the valuation, and the run of both.
pub mod Active
pub mod Strengths
mod Tests
use iknos.Prelude.{
  ℕ, Bool, true, false, ◌&&◌, Option, none, some, List, [], ◌∷◌, ◌++◌, contains, keep, ◌==◌,
  if◌then◌else◌,
}
use iknos.TruthMaintenance.Graph.{NodeId, Derivation, DerivationGraph, same_deriv}
use iknos.TruthMaintenance.Recompute.{well_founded_support}
use iknos.TruthMaintenance.Incremental.Insertion.{sort_derivs}
use iknos.Confidence.{Semiring, Valuation, valuate}

pub record NodeRow (V : Type 0) : Type 0 where
  pub id : NodeId
  pub box : Option ℕ
  pub confidence : V

pub record DerivedRow (V : Type 0) : Type 0 where
  pub conclusion : NodeId
  pub antecedent : NodeId
  pub derivation : Option ℕ
  pub strength : V

pub record ActiveSubgraph (V : Type 0) : Type 0 where
  pub graph : DerivationGraph
  pub base_confidence : NodeId → Option V
  pub strength : Derivation → Option V

-- the degrees of the valuation: a semiring, and the tests `==` and `<`
pub record Degrees (V : Type 0) : Type 0 where
  pub semiring : Semiring V
  pub same : V → V → Bool
  pub lesser : V → V → Bool

-- the key of a group of rows, one firing of a rule
pub data GroupKey : Type 0 where
  by_derivation : ℕ → GroupKey
  by_conclusion : NodeId → GroupKey

abbrev pub same_key : GroupKey → GroupKey → Bool
same_key (by_derivation a) (by_derivation b) = a == b
same_key (by_conclusion a) (by_conclusion b) = a == b
same_key _ _ = false

pub record Group (V : Type 0) : Type 0 where
  pub key : GroupKey
  pub conclusion : NodeId
  pub body : List NodeId
  pub strength : V

-- `active_box_ids is None or box in active_box_ids`
abbrev pub in_boxes : Option (List ℕ) → Option ℕ → Bool
in_boxes none box = true
in_boxes (some ids) none = false
in_boxes (some ids) (some box) = contains ids box

module _ {V : Type 0} where
  -- `node_box[nid]` and `node_conf[nid]`: a later row takes the place of an earlier one
  unfoldable pub row_of : List (NodeRow V) → NodeId → Option (NodeRow V)
  row_of [] nid = none
  row_of (r ∷ rows) nid = elim (row_of rows nid) [
    | some later ↦ some later
    | none ↦ if r.id == nid then some r else none
  ]

  abbrev pub row_active : Option (List ℕ) → Option (NodeRow V) → Bool
  row_active boxes none = false
  row_active boxes (some r) = in_boxes boxes r.box

  unfoldable pub is_active : List (NodeRow V) → Option (List ℕ) → NodeId → Bool
  is_active rows boxes nid = row_active boxes (row_of rows nid)

  abbrev pub key_of : DerivedRow V → GroupKey
  key_of row = elim row.derivation [
    | some group ↦ by_derivation group
    | none ↦ by_conclusion row.conclusion
  ]

  module _ (degrees : Degrees V) where
    -- one turn of the loop over the rows
    unfoldable pub add_row : DerivedRow V → List (Group V) → List (Group V)
    add_row row [] =
        record {
          key = key_of row;
          conclusion = row.conclusion;
          body = row.antecedent ∷ [];
          strength = row.strength;
        }
        ∷ []
    add_row row (g ∷ groups) =
        let rest = add_row row groups in
        if same_key g.key (key_of row)
        then record {
          key = g.key;
          conclusion = row.conclusion;
          body = if contains g.body row.antecedent then g.body else row.antecedent ∷ g.body;
          strength = if degrees.lesser row.strength g.strength then row.strength else g.strength;
        }
          ∷ groups
        else g ∷ rest

    unfoldable pub group_rows : List (DerivedRow V) → List (Group V) → List (Group V)
    group_rows [] groups = groups
    group_rows (row ∷ rows) groups = group_rows rows (add_row row groups)

    abbrev pub derivation_of : Group V → Derivation
    derivation_of g = record { conclusion = g.conclusion; body = g.body }

    -- the groups whose conclusion is active
    unfoldable pub active_groups : (NodeId → Bool) → List (Group V) → List (Group V)
    active_groups active [] = []
    active_groups active (g ∷ groups) =
        let rest = active_groups active groups in if active g.conclusion then g ∷ rest else rest

    abbrev pub derivations_of : List (Group V) → List Derivation
    derivations_of [] = []
    derivations_of (g ∷ groups) = derivation_of g ∷ derivations_of groups

    -- `strength_map[deriv]`: a later group takes the place of an earlier one
    unfoldable pub strength_of : List (Group V) → Derivation → Option V
    strength_of [] d = none
    strength_of (g ∷ groups) d = elim (strength_of groups d) [
      | some later ↦ some later
      | none ↦ if same_deriv (derivation_of g) d then some g.strength else none
    ]

    abbrev pub confidence_in : Option (NodeRow V) → Option V
    confidence_in none = none
    confidence_in (some r) = some r.confidence

    unfoldable pub assemble_subgraph :
        List (NodeRow V) → List NodeId → List (DerivedRow V) → Option (List ℕ) → ActiveSubgraph V
    assemble_subgraph nodes base_fact_ids derived boxes =
        let base_facts = keep (is_active nodes boxes) base_fact_ids in
        let groups = active_groups (is_active nodes boxes) (group_rows derived []) in
        record {
          graph = record {
            base_facts = base_facts;
            derivations = sort_derivs (derivations_of groups);
          };
          base_confidence =
              λ nid. if contains base_facts nid then confidence_in (row_of nodes nid) else none;
          strength = strength_of groups;
        }

    abbrev pub call_of : ActiveSubgraph V → List NodeId → Valuation V
    call_of subgraph supported = record {
      graph = subgraph.graph;
      supported = supported;
      base_confidence = subgraph.base_confidence;
      strength = subgraph.strength;
      semiring = degrees.semiring;
      same = degrees.same;
    }

    -- both layers; `none` is the `RuntimeError` of the valuation
    unfoldable pub support_and_confidence :
        ActiveSubgraph V → Option (List NodeId × List (NodeId × V))
    support_and_confidence subgraph =
        let supported = well_founded_support subgraph.graph in
        elim (valuate (call_of subgraph supported)) [
          | none ↦ none
          | some confidence ↦ some (supported, confidence)
        ]
