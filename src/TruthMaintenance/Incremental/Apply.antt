-- ===== src/TruthMaintenance/Incremental/Apply.antt =====
-- `IncrementalOracle.apply`: the diff of a snapshot against the retained one.
pub mod Diff
pub mod Correct
pub mod Sequence
use iknos.Prelude.{
  Bool, true, false, not, ◌&&◌, List, [], ◌∷◌, contains, minus, distinct, if◌then◌else◌,
}
use iknos.TruthMaintenance.Graph.{NodeId, Derivation, DerivationGraph, has_deriv}
use iknos.TruthMaintenance.Entries.{Entry, rules}
use iknos.TruthMaintenance.Front.{Front}
use iknos.TruthMaintenance.Incremental.State.{Counted, Oracle}
use iknos.TruthMaintenance.Incremental.Insertion.{insert}
use iknos.TruthMaintenance.Incremental.Deletion.{delete}

-- `set(derivations)`
unfoldable pub distinct_derivs : List Derivation → List Derivation
unfolding has_deriv
distinct_derivs [] = []
distinct_derivs (d ∷ ds) =
    let rest = distinct_derivs ds in if has_deriv ds d then rest else d ∷ rest

-- `new_derivs - old_derivs`
unfoldable pub derivs_minus : List Derivation → List Derivation → List Derivation
unfolding has_deriv
derivs_minus [] old = []
derivs_minus (d ∷ ds) old =
    let rest = derivs_minus ds old in if has_deriv old d then rest else d ∷ rest

-- `old_derivs - new_derivs`, with the numbers that `_ids` gives them
unfoldable pub entries_minus : List Entry → List Derivation → List Entry
unfolding has_deriv
entries_minus [] new = []
entries_minus ((i, d) ∷ es) new =
    let rest = entries_minus es new in if has_deriv new d then rest else (i, d) ∷ rest

-- the truth value of a collection
abbrev is_empty {ℓ} : {A : Type ℓ} → List A → Bool
is_empty [] = true
is_empty (_ ∷ _) = false

unfoldable pub apply : DerivationGraph → Oracle → Oracle
unfolding minus distinct_derivs derivs_minus entries_minus delete insert
apply g o =
    let removed_base = minus o.base g.base_facts in
    let added_base = minus g.base_facts o.base in
    let removed_derivs = entries_minus o.derivs g.derivations in
    let added_derivs = derivs_minus (distinct_derivs g.derivations) (rules o.derivs) in
    let o' =
      if is_empty removed_base && is_empty removed_derivs
      then o
      else delete removed_base removed_derivs o in
    if is_empty added_base && is_empty added_derivs then o' else insert added_base added_derivs o'

-- a sequence of snapshots
unfoldable pub apply_all : List DerivationGraph → Oracle → Oracle
unfolding apply
apply_all [] o = o
apply_all (g ∷ gs) o = apply_all gs (apply g o)
