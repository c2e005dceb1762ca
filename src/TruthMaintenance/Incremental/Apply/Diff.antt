-- ===== src/TruthMaintenance/Incremental/Apply/Diff.antt =====
-- What the set differences of `apply` hold.
use iknos.Prelude.{
  ℕ, ◌≡◌, refl, false, not, ◌&&◌, ◌||◌, inl, inr, List, [], ◌∷◌, some, arith, contains, Distinct,
  ◌==◌, Bool-cases,
}
use iknos.TruthMaintenance.Graph.{Derivation, same_deriv, has_deriv}
use iknos.TruthMaintenance.Graph.Rules.{has_deriv_cong}
use iknos.TruthMaintenance.Entries.{Entry, find, ids, contains-ids}
use iknos.TruthMaintenance.Incremental.Insertion.{insert_deriv, sort_derivs}
use iknos.TruthMaintenance.Incremental.Apply.{distinct_derivs, derivs_minus, entries_minus}

has_deriv-distinct_derivs :
    (ds : List Derivation) (d : Derivation) → has_deriv (distinct_derivs ds) d ≡ has_deriv ds d
unfolding distinct_derivs has_deriv
has_deriv-distinct_derivs [] d = refl
has_deriv-distinct_derivs (c ∷ ds) d = elim (Bool-cases (same_deriv c d)) [
  | inl same ↦ ground (arith, has_deriv-distinct_derivs ds d, has_deriv_cong ds c d same)
  | inr other ↦ ground (arith, has_deriv-distinct_derivs ds d)
]

has_deriv-derivs_minus :
    (ds old : List Derivation) (d : Derivation)
    → has_deriv (derivs_minus ds old) d ≡ (not (has_deriv old d) && has_deriv ds d)
unfolding derivs_minus has_deriv
has_deriv-derivs_minus [] old d = ground arith
has_deriv-derivs_minus (c ∷ ds) old d = elim (Bool-cases (same_deriv c d)) [
  | inl same ↦ ground (arith, has_deriv-derivs_minus ds old d, has_deriv_cong old c d same)
  | inr other ↦ ground (arith, has_deriv-derivs_minus ds old d)
]

-- the rules that are new in a snapshot
pub has_deriv-added :
    (ds old : List Derivation) (d : Derivation)
    → has_deriv (derivs_minus (distinct_derivs ds) old) d
      ≡ (not (has_deriv old d) && has_deriv ds d)
has_deriv-added ds old d =
    ground
      (arith, has_deriv-derivs_minus (distinct_derivs ds) old d, has_deriv-distinct_derivs ds d)

has_deriv-insert_deriv :
    (c : Derivation) (ds : List Derivation) (d : Derivation)
    → has_deriv (insert_deriv c ds) d ≡ (same_deriv c d || has_deriv ds d)
unfolding insert_deriv has_deriv
has_deriv-insert_deriv c [] d = ground arith
has_deriv-insert_deriv c (e ∷ ds) d = ground (arith, has_deriv-insert_deriv c ds d)

pub has_deriv-sort_derivs :
    (ds : List Derivation) (d : Derivation) → has_deriv (sort_derivs ds) d ≡ has_deriv ds d
unfolding sort_derivs has_deriv
has_deriv-sort_derivs [] d = refl
has_deriv-sort_derivs (c ∷ ds) d =
    ground (arith, has_deriv-insert_deriv c (sort_derivs ds) d, has_deriv-sort_derivs ds d)

not-entries_minus :
    (es : List Entry) (new : List Derivation) (i : ℕ)
    → contains (ids es) i ≡ false
    → contains (ids (entries_minus es new)) i ≡ false
unfolding entries_minus ids contains
not-entries_minus [] new i h = refl
not-entries_minus ((j, e) ∷ es) new i h = ground (arith, not-entries_minus es new i)

-- the rules that a snapshot lost, by their numbers
pub contains-entries_minus :
    (es : List Entry) (new : List Derivation) (i : ℕ) (d : Derivation)
    → Distinct (ids es)
    → find es i ≡ some d
    → contains (ids (entries_minus es new)) i ≡ not (has_deriv new d)
unfolding entries_minus find ids contains
contains-entries_minus [] new i d k h = cc
contains-entries_minus ((j, e) ∷ es) new i d k h = elim (Bool-cases (j == i)) [
  | inl same ↦
      let e' : j ≡ i = ground arith in
      let gone : contains (ids es) i ≡ false = rw e' at k.0 in
      ground (arith, not-entries_minus es new i gone)
  | inr other ↦ ground (arith, contains-entries_minus es new i d k.1)
]

pub entries_minus-Distinct :
    (es : List Entry) (new : List Derivation)
    → Distinct (ids es)
    → Distinct (ids (entries_minus es new))
unfolding entries_minus ids
entries_minus-Distinct [] new k = tt
entries_minus-Distinct ((j, e) ∷ es) new k =
    ground (arith, entries_minus-Distinct es new k.1, not-entries_minus es new j)

pub find-entries_minus :
    (es : List Entry) (new : List Derivation) (i : ℕ) (d : Derivation)
    → Distinct (ids es)
    → find (entries_minus es new) i ≡ some d
    → find es i ≡ some d
unfolding entries_minus find ids
find-entries_minus [] new i d k h = cc
find-entries_minus ((j, e) ∷ es) new i d k h = elim (Bool-cases (j == i)) [
  | inl same ↦
      let e' : j ≡ i = ground arith in
      let gone : contains (ids es) i ≡ false = rw e' at k.0 in
      elim (Bool-cases (has_deriv new e)) [
        | inl stays ↦
            let rest = find-entries_minus es new i d k.1 (ground arith) in
            let present = contains-ids es i d rest in cc
        | inr lost ↦ ground arith
      ]
  | inr other ↦ ground (arith, find-entries_minus es new i d k.1)
]
