-- ===== src/TruthMaintenance/Entries/Append.antt =====
-- Tables that grow at the end, as a Python dict does.
use iknos.Prelude.{
  ℕ, ◌≡◌, refl, false, inl, inr, List, [], ◌∷◌, ◌++◌, none, some, arith, contains, ◌==◌, Bool-cases,
  Distinct, ◌⊎◌,
}
use iknos.TruthMaintenance.Graph.{NodeId, Derivation, InRules, here, there}
use iknos.TruthMaintenance.Entries.{Entry, ids, find, ids_using, ids_heading, rules, contains-ids}

pub ids-append : (es fs : List Entry) → ids (es ++ fs) ≡ ids es ++ ids fs
unfolding ids
ids-append [] fs = refl
ids-append ((i, d) ∷ es) fs = ground (arith, ids-append es fs)

pub rules-append : (es fs : List Entry) → rules (es ++ fs) ≡ rules es ++ rules fs
rules-append [] fs = refl
rules-append ((i, d) ∷ es) fs = ground (arith, rules-append es fs)

pub ids_using-append :
    (a : NodeId) (es fs : List Entry) → ids_using a (es ++ fs) ≡ ids_using a es ++ ids_using a fs
unfolding ids_using
ids_using-append a [] fs = refl
ids_using-append a ((i, d) ∷ es) fs = ground (arith, ids_using-append a es fs)

pub ids_heading-append :
    (c : NodeId) (es fs : List Entry)
    → ids_heading c (es ++ fs) ≡ ids_heading c es ++ ids_heading c fs
unfolding ids_heading
ids_heading-append c [] fs = refl
ids_heading-append c ((i, d) ∷ es) fs = ground (arith, ids_heading-append c es fs)

pub find-append_some :
    (es fs : List Entry) (i : ℕ) (d : Derivation) → find es i ≡ some d → find (es ++ fs) i ≡ some d
unfolding find
find-append_some [] fs i d h = cc
find-append_some ((j, e) ∷ es) fs i d h = ground (arith, find-append_some es fs i d)

pub find-append_none :
    (es fs : List Entry) (i : ℕ) → find es i ≡ none → find (es ++ fs) i ≡ find fs i
unfolding find
find-append_none [] fs i h = refl
find-append_none ((j, e) ∷ es) fs i h = ground (arith, find-append_none es fs i)

-- what stands in the longer table stands in one of its parts
pub find-append :
    (es fs : List Entry) (i : ℕ) (d : Derivation)
    → find (es ++ fs) i ≡ some d
    → (find es i ≡ some d) ⊎ (find fs i ≡ some d)
unfolding find
find-append [] fs i d h = inr h
find-append ((j, e) ∷ es) fs i d h = ground (arith, find-append es fs i d)

pub InRules-append_left :
    {d : Derivation} (ds es : List Derivation) → InRules d ds → InRules d (ds ++ es)
InRules-append_left (e ∷ ds) es here = here
InRules-append_left (e ∷ ds) es (there m) = there (InRules-append_left ds es m)
InRules-append_left [] es m = elim m [ ]

pub InRules-append_right :
    {d : Derivation} (ds es : List Derivation) → InRules d es → InRules d (ds ++ es)
InRules-append_right [] es m = m
InRules-append_right (e ∷ ds) es m = there (InRules-append_right ds es m)

pub InRules-append :
    {d : Derivation} (ds es : List Derivation) → InRules d (ds ++ es) → InRules d ds ⊎ InRules d es
InRules-append [] es m = inr m
InRules-append (e ∷ ds) es here = inl here
InRules-append (e ∷ ds) es (there m) = elim (InRules-append ds es m) [
  | inl left ↦ inl (there left)
  | inr right ↦ inr right
]

-- with distinct keys, what stands in the later part is found in the whole
pub find-append_right :
    (es fs : List Entry) (i : ℕ) (d : Derivation)
    → Distinct (ids (es ++ fs))
    → find fs i ≡ some d
    → find (es ++ fs) i ≡ some d
unfolding find ids
find-append_right [] fs i d k h = h
find-append_right ((j, e) ∷ es) fs i d k h =
    let rest = find-append_right es fs i d k.1 h in
    let present = contains-ids (es ++ fs) i d rest in
    elim (Bool-cases (j == i)) [
      | inl same ↦
          let e' : j ≡ i = ground arith in
          let gone : contains (ids (es ++ fs)) i ≡ false = rw e' at k.0 in cc
      | inr other ↦ ground (arith, rest)
    ]
