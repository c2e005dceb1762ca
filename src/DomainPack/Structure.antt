-- ===== src/DomainPack/Structure.antt =====
-- `_validate_structure` of domain/pack.py accepts exactly the well-formed packs.
use iknos.Prelude.{
  ℕ, ◌≤◌, ◌≡◌, ◌≢◌, ◌↔◌, refl, ◌⊎◌, inl, inr, Bool, true, false, not, ◌&&◌, ◌∙◌, Bool-cases, Option,
  none, some, List, [], ◌∷◌, length, Each, arith, contains, contains-distinct, distinct,
  distinct-Distinct, Distinct, ◌==◌,
}
use iknos.DomainPack.{
  schema, reference, EntityType, TaxonomyEntity, PartOfRelation, DomainPack, PackError, linked,
  cyclic, reject_cycles, and_then, raise_if, check_parent, check_parents, check_kinds,
  wrong_tier_of, Tier, check_relations, count_pairs, repeated, type_names, keys, validate_structure,
}
use iknos.DomainPack.Chains.{Chain, Behind}
use iknos.DomainPack.Cycles.{reject_cycles_iff, reject_cycles-cyclic}

-- no two relations have the same ends
abbrev pub PairsOnce : List PartOfRelation → Type 0
PairsOnce [] = Unit
PairsOnce (r ∷ rs) = (linked rs r.part r.whole ≡ false) × PairsOnce rs

-- the relation joins two different declared keys
abbrev pub Joins : List ℕ → PartOfRelation → Type 0
Joins key_set r =
    (contains key_set r.part ≡ true) × (contains key_set r.whole ≡ true) × (r.part ≢ r.whole)

-- the parent of an entity type is none or a declared type
abbrev pub KnownParent : List ℕ → Option ℕ → Type 0
KnownParent type_set none = Unit
KnownParent type_set (some parent) = contains type_set parent ≡ true

pub record WellFormed (pack : DomainPack) : Type 0 where
  pub durable : (pack.tier ≡ schema) ⊎ (pack.tier ≡ reference)
  pub types_once : Distinct (type_names pack)
  pub parents : Each (λ t. KnownParent (type_names pack) t.parent) pack.entity_types
  pub keys_once : Distinct (keys pack)
  pub kinds : Each (λ e. contains (type_names pack) e.kind ≡ true) pack.entities
  pub relations : Each (Joins (keys pack)) pack.part_of
  pub pairs_once : PairsOnce pack.part_of
  pub acyclic : (a : ℕ) → ¬ Chain (linked pack.part_of) a a

length-distinct_le : (xs : List ℕ) → length (distinct xs) ≤ length xs
unfolding distinct
length-distinct_le [] = omega arith
length-distinct_le (x ∷ xs) = ground (arith, length-distinct_le xs)

repeated_iff : (xs : List ℕ) → (repeated xs ≡ false) ↔ Distinct xs
unfolding distinct
repeated_iff [] = (λ _. tt, λ _. refl)
repeated_iff (x ∷ xs) = ground (arith, repeated_iff xs, length-distinct_le xs)

count_pairs_le : (rs : List PartOfRelation) → count_pairs rs ≤ length rs
unfolding count_pairs
count_pairs_le [] = omega arith
count_pairs_le (r ∷ rs) = ground (arith, count_pairs_le rs)

count_pairs_iff : (rs : List PartOfRelation) → (count_pairs rs ≡ length rs) ↔ PairsOnce rs
unfolding count_pairs
count_pairs_iff [] = (λ _. tt, λ _. refl)
count_pairs_iff (r ∷ rs) = ground (arith, count_pairs_iff rs, count_pairs_le rs)

and_then_iff : (a b : Option PackError) → (and_then a b ≡ none) ↔ (a ≡ none) × (b ≡ none)
and_then_iff none b = (λ e. (refl, e), λ h. h.1)
and_then_iff (some x) b = (λ e. cc, λ h. cc)

raise_if_iff : (b : Bool) (e : PackError) → (raise_if b e ≡ none) ↔ (b ≡ false)
raise_if_iff b e = ground arith

check_parent_iff :
    (names : List ℕ) (name : ℕ) (parent : Option ℕ)
    → (check_parent names name parent ≡ none) ↔ KnownParent names parent
check_parent_iff names name none = (λ _. tt, λ _. refl)
check_parent_iff names name (some parent) = ground arith

check_parents_iff :
    (names : List ℕ) (ts : List EntityType)
    → (check_parents names ts ≡ none) ↔ Each (λ t. KnownParent names t.parent) ts
unfolding check_parents
check_parents_iff names [] = (λ _. tt, λ _. refl)
check_parents_iff names (t ∷ ts) =
    let both = and_then_iff (check_parent names t.name t.parent) (check_parents names ts) in
    let here = check_parent_iff names t.name t.parent in
    let rest = check_parents_iff names ts in
    (λ e. let (a, b) = both.0 e in (here.0 a, rest.0 b), λ (a, b). both.1 (here.1 a, rest.1 b))

check_kinds_iff :
    (names : List ℕ) (es : List TaxonomyEntity)
    → (check_kinds names es ≡ none) ↔ Each (λ e. contains names e.kind ≡ true) es
unfolding check_kinds
check_kinds_iff names [] = (λ _. tt, λ _. refl)
check_kinds_iff names (e ∷ es) = ground (arith, check_kinds_iff names es)

check_relations_iff :
    (names : List ℕ) (rs : List PartOfRelation)
    → (check_relations names rs ≡ none) ↔ Each (Joins names) rs
unfolding check_relations
check_relations_iff names [] = (λ _. tt, λ _. refl)
check_relations_iff names (r ∷ rs) = ground (arith, check_relations_iff names rs)

pub Joins-linked :
    (names : List ℕ) (rs : List PartOfRelation) (a b : ℕ)
    → Each (Joins names) rs
    → linked rs a b ≡ true
    → (contains names a ≡ true) × (contains names b ≡ true)
Joins-linked names [] a b h l = cc
Joins-linked names (r ∷ rs) a b h l = elim (Bool-cases (r.part == a && r.whole == b)) [
  | inl at ↦
      let e : r.part ≡ a = ground arith in
      let k : r.whole ≡ b = ground arith in (rw (← e) h.0.0, rw (← k) h.0.1)
  | inr other ↦ Joins-linked names rs a b h.1 (ground arith)
]

module _ (pack : DomainPack) (joined : Each (Joins (keys pack)) pack.part_of) where
  linked-keys :
      (a b : ℕ)
      → linked pack.part_of a b ≡ true
      → (contains (distinct (keys pack)) a ≡ true) × (contains (distinct (keys pack)) b ≡ true)
  linked-keys a b l =
      let (part, whole) = Joins-linked (keys pack) pack.part_of a b joined l in
      (contains-distinct (keys pack) a ∙ part, contains-distinct (keys pack) b ∙ whole)

  cycles_iff :
      (reject_cycles pack.part_of (distinct (keys pack)) ≡ none)
      ↔ ((a : ℕ) → ¬ Chain (linked pack.part_of) a a)
  cycles_iff =
      reject_cycles_iff pack.part_of (distinct (keys pack)) (λ a b l. (linked-keys a b l).1)
        (distinct-Distinct (keys pack)) (λ a b l. (linked-keys a b l).0)

wrong_tier_of_iff : (t : Tier) → (wrong_tier_of t ≡ false) ↔ ((t ≡ schema) ⊎ (t ≡ reference))
wrong_tier_of_iff t = ground arith

count_pairs_test_iff :
    (rs : List PartOfRelation) → (not (count_pairs rs == length rs) ≡ false) ↔ PairsOnce rs
count_pairs_test_iff rs = ground (arith, count_pairs_iff rs)

-- A pack is accepted if and only if it is well formed.
pub validate_structure_iff :
    (pack : DomainPack) → (validate_structure pack ≡ none) ↔ WellFormed pack
unfolding validate_structure
validate_structure_iff pack = (
  λ e.
      let (tier, e) = (and_then_iff _ _).0 e in
      let (types, e) = (and_then_iff _ _).0 e in
      let (parents, e) = (and_then_iff _ _).0 e in
      let (once, e) = (and_then_iff _ _).0 e in
      let (kinds, e) = (and_then_iff _ _).0 e in
      let (relations, e) = (and_then_iff _ _).0 e in
      let (pairs, cycles) = (and_then_iff _ _).0 e in
      let joined = (check_relations_iff (keys pack) pack.part_of).0 relations in
      record {
        durable = (wrong_tier_of_iff pack.tier).0 ((raise_if_iff _ _).0 tier);
        types_once = (repeated_iff (type_names pack)).0 ((raise_if_iff _ _).0 types);
        parents = (check_parents_iff (type_names pack) pack.entity_types).0 parents;
        keys_once = (repeated_iff (keys pack)).0 ((raise_if_iff _ _).0 once);
        kinds = (check_kinds_iff (type_names pack) pack.entities).0 kinds;
        relations = joined;
        pairs_once = (count_pairs_test_iff pack.part_of).0 ((raise_if_iff _ _).0 pairs);
        acyclic = (cycles_iff pack joined).0 cycles;
      },
  λ h. (and_then_iff _ _).1 (
    (raise_if_iff _ _).1 ((wrong_tier_of_iff pack.tier).1 h.durable),
    (and_then_iff _ _).1 (
      (raise_if_iff _ _).1 ((repeated_iff (type_names pack)).1 h.types_once),
      (and_then_iff _ _).1 (
        (check_parents_iff (type_names pack) pack.entity_types).1 h.parents,
        (and_then_iff _ _).1 (
          (raise_if_iff _ _).1 ((repeated_iff (keys pack)).1 h.keys_once),
          (and_then_iff _ _).1 (
            (check_kinds_iff (type_names pack) pack.entities).1 h.kinds,
            (and_then_iff _ _).1 (
              (check_relations_iff (keys pack) pack.part_of).1 h.relations,
              (and_then_iff _ _).1 (
                (raise_if_iff _ _).1 ((count_pairs_test_iff pack.part_of).1 h.pairs_once),
                (cycles_iff pack h.relations).1 h.acyclic,
              ),
            ),
          ),
        ),
      ),
    ),
  ),
)

-- Where the declared keys are joined by the relations, an error about a cycle lists exactly the
-- keys that stand on a cycle or behind one.
pub reject_cycles_lem :
    (pack : DomainPack) (ks : List ℕ)
    → Each (Joins (keys pack)) pack.part_of
    → reject_cycles pack.part_of (distinct (keys pack)) ≡ some (cyclic ks)
    → (k : ℕ) → (contains ks k ≡ true) ↔ Behind (linked pack.part_of) k
reject_cycles_lem pack ks joined e =
    reject_cycles-cyclic pack.part_of (distinct (keys pack))
      (λ a b l. (linked-keys pack joined a b l).1) (distinct-Distinct (keys pack))
      (λ a b l. (linked-keys pack joined a b l).0) ks e
