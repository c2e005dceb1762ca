-- ===== src/Resolve.antt =====
-- core/resolve.py: the union-find that makes canonical entities of the confirmed pairs and anchors.
-- An id is a number, in the order of the strings; the dict `parent` is the list of its keys in the
-- order of their insertion and a function, at which an id that is no key is its own parent, as
-- `setdefault` makes it.
mod Roots
mod Finds
mod Unions
mod Groups
mod Sound
mod Targets
mod Merging
pub mod Entities
pub mod Anchored
mod Tests
use iknos.Prelude.{
  ℕ, zero, suc, ◌&&◌, Option, none, some, Bool, List, [], ◌∷◌, ◌++◌, length, map, min, contains,
  distinct, leb, ltb, ◌==◌, if◌then◌else◌,
}

abbrev pub EntityId : Type 0
EntityId = ℕ

pub record Forest : Type 0 where
  pub known : List EntityId
  pub parent : EntityId → EntityId

abbrev pub no_entities : Forest
no_entities = record { known = []; parent = λ x. x }

-- `parent[x] = root`
unfoldable pub assign : EntityId → EntityId → (EntityId → EntityId) → EntityId → EntityId
assign x root parent y = if x == y then root else parent y

-- `while parent[root] != root`
unfoldable pub root_of : ℕ → (EntityId → EntityId) → EntityId → EntityId
root_of zero parent x = x
root_of (suc fuel) parent x =
    let higher = root_of fuel parent (parent x) in if parent x == x then x else higher

-- `while parent[x] != root`
unfoldable pub compress : ℕ → EntityId → (EntityId → EntityId) → EntityId → EntityId → EntityId
compress zero root parent x = parent
compress (suc fuel) root parent x =
    let rest = compress fuel root (assign x root parent) (parent x) in
    if parent x == root then parent else rest

abbrev pub setdefault : EntityId → Forest → Forest
setdefault x f = record {
  known = if contains f.known x then f.known else f.known ++ x ∷ [];
  parent = f.parent;
}

unfoldable pub find_root : EntityId → Forest → EntityId × Forest
find_root x f =
    let g = setdefault x f in
    let root = root_of (length g.known) g.parent x in
    (root, record { known = g.known; parent = compress (length g.known) root g.parent x })

-- `parent[find(x)] = find(y)` looks for `y` first
unfoldable pub union : EntityId → EntityId → Forest → Forest
union x y f =
    let (root_y, g) = find_root y f in
    let (root_x, h) = find_root x g in
    record { known = h.known; parent = assign root_x root_y h.parent }

unfoldable pub unions : List (EntityId × EntityId) → Forest → Forest
unions [] f = f
unions ((x, y) ∷ pairs) f = unions pairs (union x y f)

-- `groups.setdefault(root, set()).add(node)`
unfoldable pub add_member :
    EntityId → EntityId → List (EntityId × List EntityId) → List (EntityId × List EntityId)
add_member root node [] = (root, node ∷ []) ∷ []
add_member root node ((key, members) ∷ groups) =
    let rest = add_member root node groups in
    if key == root
    then (key, if contains members node then members else node ∷ members) ∷ groups
    else (key, members) ∷ rest

-- `for node in parent`
unfoldable pub grouped :
    List EntityId → Forest → List (EntityId × List EntityId) → List (EntityId × List EntityId)
grouped [] f groups = groups
grouped (node ∷ nodes) f groups =
    let (root, g) = find_root node f in grouped nodes g (add_member root node groups)

-- the groups of more than one member
unfoldable pub several : List (EntityId × List EntityId) → List (List EntityId)
several [] = []
several ((key, members) ∷ groups) =
    let rest = several groups in if ltb 1 (length members) then members ∷ rest else rest

unfoldable pub components : List (EntityId × EntityId) → List (List EntityId)
components pairs = let f = unions pairs no_entities in several (grouped f.known f [])

-- `by_target.setdefault(target, []).append(entity)`
unfoldable pub append_to :
    EntityId → EntityId → List (EntityId × List EntityId) → List (EntityId × List EntityId)
append_to target entity [] = (target, entity ∷ []) ∷ []
append_to target entity ((key, entities) ∷ groups) =
    let rest = append_to target entity groups in
    if key == target then (key, entities ++ entity ∷ []) ∷ groups else (key, entities) ∷ rest

-- `for entity, target in anchors.items()`
unfoldable pub by_target :
    List (EntityId × EntityId)
    → Forest
    → List (EntityId × List EntityId)
    → Forest × List (EntityId × List EntityId)
by_target [] f groups = (f, groups)
by_target ((entity, target) ∷ anchors) f groups =
    by_target anchors (find_root entity f).1 (append_to target entity groups)

-- the pairs that `for other in entities[1:]` unites
abbrev pub star_of : EntityId → List EntityId → List (EntityId × EntityId)
star_of first others = map (λ other. (first, other)) others

-- `for entities in by_target.values()`
unfoldable pub merge_targets : List (EntityId × List EntityId) → Forest → Forest
merge_targets [] f = f
merge_targets ((key, []) ∷ groups) f = merge_targets groups f
merge_targets ((key, first ∷ others) ∷ groups) f =
    merge_targets groups (unions (star_of first others) f)

pub record Component : Type 0 where
  pub canonical : EntityId
  pub members : List EntityId
  pub anchors : List EntityId

-- `anchors[m]`, of a dict as the list of its items
abbrev pub target_at : List (EntityId × EntityId) → EntityId → Option EntityId
target_at [] m = none
target_at ((entity, target) ∷ anchors) m = if entity == m then some target else target_at anchors m

-- `canonical_id`, of a component that has a member
unfoldable pub canonical_id : List EntityId → EntityId
canonical_id [] = 0
canonical_id (m ∷ []) = m
canonical_id (m ∷ n ∷ members) = min m (canonical_id (n ∷ members))

-- `anchors[m] for m in members if m in anchors`
unfoldable pub targets_of : List (EntityId × EntityId) → List EntityId → List EntityId
targets_of anchors [] = []
targets_of anchors (m ∷ members) =
    let rest = targets_of anchors members in
    elim (target_at anchors m) [ none ↦ rest | some target ↦ target ∷ rest ]

abbrev pub canonical_in : List EntityId → List EntityId → EntityId
canonical_in (target ∷ []) members = target
canonical_in targets members = canonical_id members

-- the components of the groups, in the order of the groups
unfoldable pub anchored_groups :
    List (EntityId × EntityId) → List (EntityId × List EntityId) → List Component
anchored_groups anchors [] = []
anchored_groups anchors ((key, members) ∷ groups) =
    let rest = anchored_groups anchors groups in
    let targets = distinct (targets_of anchors members) in
    if leb (length members) 1 && length targets == 0
    then rest
    else record { canonical = canonical_in targets members; members = members; anchors = targets }
      ∷ rest

unfoldable pub insert_component : Component → List Component → List Component
insert_component c [] = c ∷ []
insert_component c (d ∷ cs) =
    let rest = insert_component c cs in if leb c.canonical d.canonical then c ∷ d ∷ cs else d ∷ rest

unfoldable pub sort_components : List Component → List Component
sort_components [] = []
sort_components (c ∷ cs) = insert_component c (sort_components cs)

unfoldable pub anchored_forest : List (EntityId × EntityId) → List (EntityId × EntityId) → Forest
anchored_forest pairs anchors =
    let (f, groups) = by_target anchors (unions pairs no_entities) [] in merge_targets groups f

unfoldable pub anchored_components :
    List (EntityId × EntityId) → List (EntityId × EntityId) → List Component
anchored_components pairs anchors =
    let f = anchored_forest pairs anchors in
    sort_components (anchored_groups anchors (grouped f.known f []))
