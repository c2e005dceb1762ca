-- ===== src/Resolve/Targets.antt =====
-- The entities of one anchor in core/resolve.py: what the loop over the anchors gathers.
use iknos.Prelude.{
  ◌≡◌, ◌∙◌, ◌&&◌, ◌||◌, inl, inr, true, Bool, List, [], ◌∷◌, ◌++◌, any, contains, contains-append,
  ◌==◌, ==_refl, Each, Bool-cases, arith,
}
use iknos.Resolve.{EntityId, Forest, append_to, by_target, find_root}
use iknos.Resolve.Finds.{IsForest, Keeps, find_root-Found}
use iknos.Resolve.Groups.{members_at}

-- `a` is anchored to `t`
abbrev pub anchored_to : List (EntityId × EntityId) → EntityId → EntityId → Bool
anchored_to anchors a t = any (λ (p : EntityId × EntityId). p.0 == a && p.1 == t) anchors

members_at-append_to :
    (target entity t : EntityId) (groups : List (EntityId × List EntityId)) (a : EntityId)
    → contains (members_at t (append_to target entity groups)) a
      ≡ (contains (members_at t groups) a || (target == t && entity == a))
unfolding append_to contains
members_at-append_to target entity t [] a = elim (Bool-cases (target == t)) [
  | inl at_t ↦ ground arith
  | inr other ↦ ground arith
]
members_at-append_to target entity t ((key, entities) ∷ groups) a =
    let rest = members_at-append_to target entity t groups a in
    let joined = contains-append entities (entity ∷ []) a in
    elim (Bool-cases (key == target)) [
      | inl here ↦
          let e : key ≡ target = ground arith in
          elim (Bool-cases (key == t)) [ inl at_t ↦ ground arith | inr other ↦ ground arith ]
      | inr later ↦ elim (Bool-cases (key == t)) [
        | inl at_t ↦ ground arith
        | inr other ↦ ground arith
      ]
    ]

-- the entities of a group have its key for an anchor
abbrev pub Named : List (EntityId × EntityId) → EntityId × List EntityId → Type 0
Named anchors g = (a : EntityId) → contains g.1 a ≡ true → anchored_to anchors a g.0 ≡ true

Each-append_to :
    (anchors : List (EntityId × EntityId)) (target entity : EntityId)
    (groups : List (EntityId × List EntityId))
    → anchored_to anchors entity target ≡ true
    → Each (Named anchors) groups
    → Each (Named anchors) (append_to target entity groups)
unfolding append_to contains
Each-append_to anchors target entity [] h each =
    (λ a m. let e : entity ≡ a = ground arith in rw e at h, tt)
Each-append_to anchors target entity ((key, entities) ∷ groups) h each =
    elim (Bool-cases (key == target)) [
      | inr later ↦
          rw (later, append_to) (each.0, Each-append_to anchors target entity groups h each.1)
      | inl here ↦
          let e : key ≡ target = ground arith in
          let grown : Named anchors (key, entities ++ entity ∷ []) = λ a m.
            elim (Bool-cases (contains entities a)) [
              | inl old ↦ each.0 a old
              | inr new ↦
                  let joined = contains-append entities (entity ∷ []) a in
                  let same : entity ≡ a = ground arith in
                  let k : anchored_to anchors a target ≡ true = rw same at h in rw e k
            ] in
          rw (here, append_to) (grown, each.1)
    ]

-- what the loop over the anchors leaves
pub record Targeted (anchors : List (EntityId × EntityId)) (f : Forest)
    (groups : List (EntityId × List EntityId)) (g : Forest)
    (after : List (EntityId × List EntityId)) : Type 0 where
  pub forest : IsForest g
  pub keeps : Keeps f.parent g.parent
  pub known : (a : EntityId) → contains f.known a ≡ true → contains g.known a ≡ true
  pub ends : (a t : EntityId) → anchored_to anchors a t ≡ true → contains g.known a ≡ true
  pub members :
      (a t : EntityId)
      → contains (members_at t after) a
        ≡ (contains (members_at t groups) a || anchored_to anchors a t)
  pub named :
      (every : List (EntityId × EntityId))
      → ((a t : EntityId) → anchored_to anchors a t ≡ true → anchored_to every a t ≡ true)
      → Each (Named every) groups
      → Each (Named every) after

pub by_target-Targeted :
    (anchors : List (EntityId × EntityId)) (f : Forest) (groups : List (EntityId × List EntityId))
    → IsForest f
    → Targeted anchors f groups (by_target anchors f groups).0 (by_target anchors f groups).1
unfolding by_target
by_target-Targeted [] f groups forest = record {
  forest = forest;
  keeps = λ m z s there. (m, there);
  known = λ a m. m;
  ends = λ a t h. absurd cc;
  members = λ a t. ground arith;
  named = λ every among each. each;
}
by_target-Targeted ((entity, target) ∷ anchors) f groups forest =
    let found = find_root-Found entity f forest in
    let rest =
      by_target-Targeted anchors (find_root entity f).1 (append_to target entity groups)
        found.forest in
    record {
      forest = rest.forest;
      keeps = λ m z s there. let (k, now) = found.keeps m z s there in rest.keeps k z s now;
      known = λ a m. rest.known a (found.known a ∙ ground arith);
      ends = λ a t h. elim (Bool-cases (entity == a)) [
        | inl here ↦ rest.known a (found.known a ∙ ground arith)
        | inr later ↦ rest.ends a t (ground arith)
      ];
      members = λ a t.
          let added = members_at-append_to target entity t groups a in
          let all_in = rest.members a t in ground arith;
      named = λ every among each.
          rest.named every (λ a t h. among a t (ground arith))
            (Each-append_to every target entity groups
              (among entity target
                (let p = ==_refl entity in let q = ==_refl target in ground arith))
              each);
    }
