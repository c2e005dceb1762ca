-- ===== src/DomainPack.antt =====
-- domain/pack.py: the declaration of a domain pack, the check of its structure, and the closure of
-- its part-whole relation. Names, keys and texts are numbers, in the order of the strings.
pub mod Chains
mod Kahn
mod Drain
pub mod Cycles
pub mod Structure
mod Search
mod Rolls
pub mod Closure
mod Tests
use iknos.Prelude.{
  ℕ, zero, suc, ◌+◌, ◌-◌, Bool, true, false, not, ◌&&◌, ◌||◌, Option, none, some, List, [], ◌∷◌,
  ◌++◌, map, length, contains, keep, distinct, sorted, ltb, ◌==◌, if◌then◌else◌,
}

-- types/nodes.py: the tiers of a box
pub data Tier : Type 0 where
  schema reference case_tier working : Tier

pub data MeronymyType : Type 0 where
  component_integral member_collection portion_mass stuff_object feature_activity place_area :
      MeronymyType

-- `m in _ROLLUP_SAFE`
abbrev pub rollup_safe : MeronymyType → Bool
rollup_safe component_integral = true
rollup_safe _ = false

pub record EntityType : Type 0 where
  pub name : ℕ
  pub description : Option ℕ
  pub parent : Option ℕ

pub record TaxonomyEntity : Type 0 where
  pub key : ℕ
  pub label : ℕ
  pub kind : ℕ

pub record PartOfRelation : Type 0 where
  pub part : ℕ
  pub whole : ℕ
  pub meronymy : MeronymyType

pub data Origin : Type 0 where
  direct rollup : Origin

pub record PartOfEdge : Type 0 where
  pub part : ℕ
  pub whole : ℕ
  pub meronymy : MeronymyType
  pub derivation : Origin

pub record DomainPack : Type 0 where
  pub name : ℕ
  pub version : ℕ
  pub tier : Tier
  pub source : ℕ
  pub reliability_prior : ℕ
  pub description : Option ℕ
  pub entity_types : List EntityType
  pub entities : List TaxonomyEntity
  pub part_of : List PartOfRelation

-- the `ValueError`s of the check
pub data PackError : Type 0 where
  wrong_tier duplicate_type_names duplicate_keys duplicate_part_of : PackError
  undeclared_parent unknown_type : ℕ → ℕ → PackError
  unknown_part unknown_whole self_loop : ℕ → PackError
  cyclic : List ℕ → PackError

abbrev pub linked : List PartOfRelation → ℕ → ℕ → Bool
linked [] a b = false
linked (r ∷ rs) a b = (r.part == a && r.whole == b) || linked rs a b

-- `adj[n]`
unfoldable pub targets : List PartOfRelation → ℕ → List ℕ
targets [] n = []
targets (r ∷ rs) n = let rest = targets rs n in if r.part == n then r.whole ∷ rest else rest

abbrev pub raised : ℕ → (ℕ → ℕ) → ℕ → ℕ
raised w d k = if w == k then suc (d k) else d k

abbrev pub lowered : ℕ → (ℕ → ℕ) → ℕ → ℕ
lowered w d k = if w == k then d k - 1 else d k

unfoldable pub in_degrees : List PartOfRelation → (ℕ → ℕ) → ℕ → ℕ
in_degrees [] d = d
in_degrees (r ∷ rs) d = in_degrees rs (raised r.whole d)

-- `for w in adj[n]`
unfoldable pub release : List ℕ → (ℕ → ℕ) → List ℕ → (ℕ → ℕ) × List ℕ
release [] d q = (d, q)
release (w ∷ ws) d q =
    let less = lowered w d in release ws less (if less w == 0 then q ++ w ∷ [] else q)

pub record Drained : Type 0 where
  pub indeg : ℕ → ℕ
  pub queue : List ℕ
  pub visited : ℕ

-- `while queue`
unfoldable pub drain : ℕ → List PartOfRelation → (ℕ → ℕ) → List ℕ → ℕ → Drained
drain zero rels d q n = record { indeg = d; queue = q; visited = n }
drain (suc fuel) rels d [] n = record { indeg = d; queue = []; visited = n }
drain (suc fuel) rels d (k ∷ q) n =
    let after = release (targets rels k) d q in drain fuel rels after.0 after.1 (suc n)

unfoldable pub drained : List PartOfRelation → List ℕ → Drained
drained rels key_set =
    let d = in_degrees rels (λ _. 0) in
    drain (length key_set) rels d (keep (λ k. d k == 0) key_set) 0

unfoldable pub reject_cycles : List PartOfRelation → List ℕ → Option PackError
reject_cycles rels key_set =
    let end = drained rels key_set in
    if end.visited == length key_set
    then none
    else some (cyclic (sorted (keep (λ k. ltb 0 (end.indeg k)) key_set)))

-- the first error of two checks in sequence
abbrev pub and_then : Option PackError → Option PackError → Option PackError
and_then none next = next
and_then (some e) next = some e

abbrev pub raise_if : Bool → PackError → Option PackError
raise_if true e = some e
raise_if false e = none

abbrev pub check_parent : List ℕ → ℕ → Option ℕ → Option PackError
check_parent type_set name none = none
check_parent type_set name (some parent) =
    raise_if (not (contains type_set parent)) (undeclared_parent name parent)

unfoldable pub check_parents : List ℕ → List EntityType → Option PackError
check_parents type_set [] = none
check_parents type_set (t ∷ ts) =
    and_then (check_parent type_set t.name t.parent) (check_parents type_set ts)

unfoldable pub check_kinds : List ℕ → List TaxonomyEntity → Option PackError
check_kinds type_set [] = none
check_kinds type_set (e ∷ es) =
    and_then (raise_if (not (contains type_set e.kind)) (unknown_type e.key e.kind))
      (check_kinds type_set es)

unfoldable pub check_relations : List ℕ → List PartOfRelation → Option PackError
check_relations key_set [] = none
check_relations key_set (r ∷ rs) =
    and_then (raise_if (not (contains key_set r.part)) (unknown_part r.part)) (
      and_then (raise_if (not (contains key_set r.whole)) (unknown_whole r.whole))
        (and_then (raise_if (r.part == r.whole) (self_loop r.part)) (check_relations key_set rs)))

-- `len({(r.part, r.whole) for r in part_of})`
unfoldable pub count_pairs : List PartOfRelation → ℕ
count_pairs [] = 0
count_pairs (r ∷ rs) =
    let rest = count_pairs rs in if linked rs r.part r.whole then rest else suc rest

abbrev pub wrong_tier_of : Tier → Bool
wrong_tier_of schema = false
wrong_tier_of reference = false
wrong_tier_of _ = true

abbrev pub repeated : List ℕ → Bool
repeated xs = not (length (distinct xs) == length xs)

abbrev pub type_names : DomainPack → List ℕ
type_names pack = map (λ t. t.name) pack.entity_types

abbrev pub keys : DomainPack → List ℕ
keys pack = map (λ e. e.key) pack.entities

unfoldable pub validate_structure : DomainPack → Option PackError
validate_structure pack = and_then (raise_if (wrong_tier_of pack.tier) wrong_tier) (
    and_then (raise_if (repeated (type_names pack)) duplicate_type_names) (
      and_then (check_parents (type_names pack) pack.entity_types) (
        and_then (raise_if (repeated (keys pack)) duplicate_keys) (
          and_then (check_kinds (type_names pack) pack.entities) (
            and_then (check_relations (keys pack) pack.part_of) (
              and_then
                (raise_if (not (count_pairs pack.part_of == length pack.part_of)) duplicate_part_of)
                (reject_cycles pack.part_of (distinct (keys pack)))))))))

-- the relations that compose over more than one step
unfoldable pub safe : List PartOfRelation → List PartOfRelation
safe [] = []
safe (r ∷ rs) = let rest = safe rs in if rollup_safe r.meronymy then r ∷ rest else rest

pub record RollFront : Type 0 where
  pub waiting : List (ℕ × ℕ)
  pub local_seen : List ℕ

-- `for nxt in safe_adj[node]`
unfoldable pub enqueue : List ℕ → ℕ → RollFront → RollFront
enqueue [] depth f = f
enqueue (w ∷ ws) depth f = enqueue ws depth (
    if contains f.local_seen w
    then f
    else record { waiting = f.waiting ++ (w, depth) ∷ []; local_seen = w ∷ f.local_seen })

abbrev pub rolls_up : List PartOfRelation → ℕ → ℕ → ℕ → Bool
rolls_up rels start node depth = ltb 1 depth && not (linked rels start node)

-- the wholes that the search from `start` rolls up to, in the order it takes them
unfoldable pub roll : ℕ → List PartOfRelation → ℕ → List (ℕ × ℕ) → List ℕ → List ℕ
roll zero rels start waiting seen = []
roll (suc fuel) rels start [] seen = []
roll (suc fuel) rels start ((node, depth) ∷ waiting) seen =
    let next =
      enqueue (targets (safe rels) node) (suc depth)
        record { waiting = waiting; local_seen = seen } in
    let rest = roll fuel rels start next.waiting next.local_seen in
    if rolls_up rels start node depth then node ∷ rest else rest

unfoldable pub rollups_from : List PartOfRelation → ℕ → List ℕ
rollups_from rels start =
    let firsts = targets (safe rels) start in
    roll (length rels + length rels) rels start (map (λ w. (w, 1)) firsts) firsts

abbrev pub rolled : ℕ → ℕ → PartOfEdge
rolled start w = record {
  part = start;
  whole = w;
  meronymy = component_integral;
  derivation = rollup;
}

unfoldable pub rollup_edges : List PartOfRelation → List ℕ → List PartOfEdge
rollup_edges rels [] = []
rollup_edges rels (start ∷ starts) =
    map (rolled start) (sorted (rollups_from rels start)) ++ rollup_edges rels starts

abbrev pub as_declared : PartOfRelation → PartOfEdge
as_declared r = record {
  part = r.part;
  whole = r.whole;
  meronymy = r.meronymy;
  derivation = direct;
}

unfoldable pub transitive_closure : DomainPack → List PartOfEdge
transitive_closure pack =
    map as_declared pack.part_of ++ rollup_edges pack.part_of (sorted (keys pack))
