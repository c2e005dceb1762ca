-- ===== src/TruthMaintenance/Entries.antt =====
-- Derivations under their numbers: the `enumerate(graph.derivations)` of the recompute, and the
-- dicts `_derivs` and `_ids` of the incremental oracle, which are one list read both ways.
pub mod Append
pub mod Remove
use iknos.Prelude.{
  ℕ, zero, suc, ◌+◌, ◌≤◌, ◌<◌, ◌≡◌, refl, Bool, true, false, ◌||◌, List, [], ◌∷◌, ◌++◌, map, Option,
  none, some, arith, contains, Distinct, ◌==◌, ==_iff, if◌then◌else◌, inl, inr, Bool-cases,
}
use iknos.TruthMaintenance.Graph.{NodeId, Derivation, InRules, here, there}

abbrev pub Entry : Type 0
Entry = ℕ × Derivation

-- `enumerate(ds, i)`
unfoldable pub enumerate : ℕ → List Derivation → List Entry
enumerate i [] = []
enumerate i (d ∷ ds) = (i, d) ∷ enumerate (suc i) ds

-- the keys of the dict
unfoldable pub ids : List Entry → List ℕ
ids [] = []
ids ((i, d) ∷ es) = i ∷ ids es

abbrev pub rules : List Entry → List Derivation
rules [] = []
rules ((i, d) ∷ es) = d ∷ rules es

-- `derivs.get(i)`
unfoldable pub find : List Entry → ℕ → Option Derivation
find [] i = none
find ((j, d) ∷ es) i = if j == i then some d else find es i

-- `derivs[i].conclusion`. The callers read only keys that are present.
abbrev conclusion_of : Option Derivation → NodeId
conclusion_of none = 0
conclusion_of (some d) = d.conclusion

unfoldable pub head_of : List Entry → ℕ → NodeId
unfolding find
head_of es i = conclusion_of (find es i)

-- the numbers of the rules that have `a` in their body, in the order of the dict
unfoldable pub ids_using : NodeId → List Entry → List ℕ
ids_using a [] = []
ids_using a ((i, d) ∷ es) =
    let rest = ids_using a es in if contains d.body a then i ∷ rest else rest

-- the numbers of the rules that conclude `c`
unfoldable pub ids_heading : NodeId → List Entry → List ℕ
ids_heading c [] = []
ids_heading c ((i, d) ∷ es) =
    let rest = ids_heading c es in if d.conclusion == c then i ∷ rest else rest

pub not-find : (es : List Entry) (i : ℕ) → contains (ids es) i ≡ false → find es i ≡ none
unfolding find ids contains
not-find [] i h = refl
not-find ((j, d) ∷ es) i h = ground (arith, not-find es i)

pub contains-ids :
    (es : List Entry) (i : ℕ) (d : Derivation) → find es i ≡ some d → contains (ids es) i ≡ true
unfolding find ids contains
contains-ids [] i d h = cc
contains-ids ((j, e) ∷ es) i d h = ground (arith, contains-ids es i d)

pub not-ids_using :
    (a : NodeId) (es : List Entry) (i : ℕ)
    → contains (ids es) i ≡ false
    → contains (ids_using a es) i ≡ false
unfolding ids ids_using contains
not-ids_using a [] i h = refl
not-ids_using a ((j, d) ∷ es) i h = ground (arith, not-ids_using a es i)

pub not-ids_heading :
    (c : NodeId) (es : List Entry) (i : ℕ)
    → contains (ids es) i ≡ false
    → contains (ids_heading c es) i ≡ false
unfolding ids ids_heading contains
not-ids_heading c [] i h = refl
not-ids_heading c ((j, d) ∷ es) i h = ground (arith, not-ids_heading c es i)

-- With distinct keys, a number is listed under `a` exactly if its rule has `a` in the body.
pub contains-ids_using :
    (a : NodeId) (es : List Entry) (i : ℕ) (d : Derivation)
    → Distinct (ids es)
    → find es i ≡ some d
    → contains (ids_using a es) i ≡ contains d.body a
unfolding find ids ids_using contains
contains-ids_using a [] i d k h = cc
contains-ids_using a ((j, e) ∷ es) i d k h =
    ground (arith, contains-ids_using a es i d k.1, not-ids_using a es j)

pub contains-ids_heading :
    (c : NodeId) (es : List Entry) (i : ℕ) (d : Derivation)
    → Distinct (ids es)
    → find es i ≡ some d
    → contains (ids_heading c es) i ≡ (d.conclusion == c)
unfolding find ids ids_heading contains
contains-ids_heading c [] i d k h = cc
contains-ids_heading c ((j, e) ∷ es) i d k h =
    ground (arith, contains-ids_heading c es i d k.1, not-ids_heading c es j)

pub ids_using-Distinct :
    (a : NodeId) (es : List Entry) → Distinct (ids es) → Distinct (ids_using a es)
unfolding ids ids_using
ids_using-Distinct a [] k = tt
ids_using-Distinct a ((j, e) ∷ es) k =
    ground (arith, ids_using-Distinct a es k.1, not-ids_using a es j)

pub ids_heading-Distinct :
    (c : NodeId) (es : List Entry) → Distinct (ids es) → Distinct (ids_heading c es)
unfolding ids ids_heading
ids_heading-Distinct c [] k = tt
ids_heading-Distinct c ((j, e) ∷ es) k =
    ground (arith, ids_heading-Distinct c es k.1, not-ids_heading c es j)

-- every listed number is a key
pub find-ids_using :
    (a : NodeId) (es : List Entry) (i : ℕ)
    → contains (ids_using a es) i ≡ true
    → (d : Derivation) × (find es i ≡ some d)
unfolding find ids_using contains
find-ids_using a [] i h = cc
find-ids_using a ((j, e) ∷ es) i h = elim (Bool-cases (j == i)) [
  | inl same ↦ (e, rw same)
  | inr other ↦ let (d, found) = find-ids_using a es i (ground arith) in (d, ground arith)
]

pub find-ids_heading :
    (c : NodeId) (es : List Entry) (i : ℕ)
    → Distinct (ids es)
    → contains (ids_heading c es) i ≡ true
    → (d : Derivation) × (find es i ≡ some d) × ((d.conclusion == c) ≡ true)
unfolding find ids ids_heading contains
find-ids_heading c [] i k h = cc
find-ids_heading c ((j, e) ∷ es) i k h = elim (Bool-cases (j == i)) [
  | inl same ↦
      let e' : j ≡ i = ground arith in
      let gone : contains (ids_heading c es) i ≡ false = not-ids_heading c es i (rw e' at k.0) in
      (e, rw same, ground arith)
  | inr other ↦
      let (d, found, heads) = find-ids_heading c es i k.1 (ground arith) in (d, ground arith, heads)
]

-- what is a key has a rule
pub find-contains-ids :
    (es : List Entry) (i : ℕ) → contains (ids es) i ≡ true → (d : Derivation) × (find es i ≡ some d)
unfolding find ids contains
find-contains-ids [] i h = cc
find-contains-ids ((j, e) ∷ es) i h = elim (Bool-cases (j == i)) [
  | inl same ↦ (e, rw same)
  | inr other ↦ let (d, found) = find-contains-ids es i (ground arith) in (d, ground arith)
]

-- the keys of an enumeration
pub enumerate-below :
    (k : ℕ) (ds : List Derivation) (i : ℕ) → i < k → contains (ids (enumerate k ds)) i ≡ false
unfolding enumerate ids contains
enumerate-below k [] i h = refl
enumerate-below k (d ∷ ds) i h = ground (arith, enumerate-below (suc k) ds i)

pub enumerate-Distinct : (k : ℕ) (ds : List Derivation) → Distinct (ids (enumerate k ds))
unfolding enumerate ids
enumerate-Distinct k [] = tt
enumerate-Distinct k (d ∷ ds) =
    (enumerate-below (suc k) ds k (omega arith), enumerate-Distinct (suc k) ds)

pub rules-enumerate : (k : ℕ) (ds : List Derivation) → rules (enumerate k ds) ≡ ds
unfolding enumerate
rules-enumerate k [] = refl
rules-enumerate k (d ∷ ds) = ground (arith, rules-enumerate (suc k) ds)

-- a rule in the list stands under some key, and what stands under a key is in the list
pub InRules-find :
    (es : List Entry) (d : Derivation)
    → Distinct (ids es)
    → InRules d (rules es)
    → (i : ℕ) × (find es i ≡ some d)
unfolding find ids
InRules-find [] d k m = elim m [ ]
InRules-find ((j, e) ∷ es) d k here = (j, ground arith)
InRules-find ((j, e) ∷ es) d k (there m) =
    let (i, h) = InRules-find es d k.1 m in (i, ground (arith, contains-ids es i d h))

pub find-InRules :
    (es : List Entry) (i : ℕ) (d : Derivation) → find es i ≡ some d → InRules d (rules es)
unfolding find
find-InRules [] i d h = cc
find-InRules ((j, e) ∷ es) i d h = elim (Bool-cases (j == i)) [
  | inl same ↦ let same_rule : e ≡ d = ground arith in rw (← same_rule) here
  | inr other ↦ there (find-InRules es i d (ground arith))
]
