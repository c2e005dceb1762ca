-- ===== src/SymbolicGate/Meaning.antt =====
-- The program that core/symbolic_gate.py encodes has the least model of the claims themselves.
use mathlib.Core.List.{Memᴰ}
use iknos.Prelude.{
  ℕ, suc, ◌*◌, ◌≡◌, ◌↔◌, refl, sym, ap, ◌∙◌, ◌||◌, inl, inr, Bool, true, false, List, [], ◌∷◌, ◌++◌,
  contains, contains-append, ◌==◌, ==_refl, Bool-cases, arith,
}
use iknos.TruthMaintenance.Graph.{
  NodeId, Derivation, InRules, here, there, Supported, fact, derived,
}
use iknos.TruthMaintenance.Graph.Rules.{InRules-split}
use iknos.SymbolicGate.{Atom, Rule, SymbolicQuery, Interner, position}
use iknos.SymbolicGate.Interning.{named, all_named, rules_named, keys_of, rule_keys, query_keys}
use iknos.SymbolicGate.Conflicts.{
  Clash, Conflict, Follows, stated, concluded, lit_derivations, lit_node, lit_nodes,
}

same_atom : (a b : Atom) → a.key ≡ b.key → a.positive ≡ b.positive → a ≡ b
same_atom a b p q =
    ap (λ (k : ℕ). record { key = k; positive = a.positive }) p
    ∙ ap (λ (c : Bool). record { key = b.key; positive = c }) q

module _ (ids : Interner) (keys : List ℕ)
    (apart : (j k : ℕ)
      → contains keys j ≡ true
      → contains keys k ≡ true
      → position j ids ≡ position k ids
      → j ≡ k) where
  abbrev node : Atom → NodeId
  node a = lit_node (named ids a)

  node_key :
      (a b : Atom)
      → node a ≡ node b
      → (position a.key ids ≡ position b.key ids) × (a.positive ≡ b.positive)
  node_key a b e = elim (Bool-cases a.positive) [
    | inl pa ↦ elim (Bool-cases b.positive) [
      | inl pb ↦ let h = rw (pa, pb) at e in (omega arith, pa ∙ sym pb)
      | inr nb ↦ absurd (let h = rw (pa, nb) at e in omega arith)
    ]
    | inr na ↦ elim (Bool-cases b.positive) [
      | inl pb ↦ absurd (let h = rw (na, pb) at e in omega arith)
      | inr nb ↦ let h = rw (na, nb) at e in (omega arith, na ∙ sym nb)
    ]
  ]

  node_injective :
      (a b : Atom)
      → contains keys a.key ≡ true
      → contains keys b.key ≡ true
      → node a ≡ node b
      → a ≡ b
  node_injective a b ha hb e =
      let (near, pol) = node_key a b e in same_atom a b (apart a.key b.key ha hb near) pol

  node_even : (a : Atom) (n : ℕ) → node a ≡ n * 2 → (position a.key ids ≡ n) × (a.positive ≡ true)
  node_even a n e = elim (Bool-cases a.positive) [
    | inl asserts ↦ let h = rw asserts at e in (omega arith, asserts)
    | inr denies ↦ absurd (let h = rw denies at e in omega arith)
  ]

  node_odd :
      (a : Atom) (n : ℕ) → node a ≡ suc (n * 2) → (position a.key ids ≡ n) × (a.positive ≡ false)
  node_odd a n e = elim (Bool-cases a.positive) [
    | inl asserts ↦ absurd (let h = rw asserts at e in omega arith)
    | inr denies ↦ let h = rw denies at e in (omega arith, denies)
  ]

  -- the nodes of atoms
  node_in :
      (atoms : List Atom) (n : NodeId)
      → contains (lit_nodes (all_named ids atoms)) n ≡ true
      → (a : Atom) × Memᴰ a atoms × (node a ≡ n)
  unfolding contains
  node_in [] n h = cc
  node_in (a ∷ atoms) n h = elim (Bool-cases (node a == n)) [
    | inl here_at ↦ (a, Memᴰ.head refl, ground arith)
    | inr later ↦ let (b, m, e) = node_in atoms n (ground arith) in (b, Memᴰ.tail m, e)
  ]

  in_nodes :
      (atoms : List Atom) (a : Atom)
      → Memᴰ a atoms
      → contains (lit_nodes (all_named ids atoms)) (node a) ≡ true
  unfolding contains
  in_nodes [] a m = elim m [ ]
  in_nodes (b ∷ atoms) a (Memᴰ.head e) = let h = ==_refl (node b) in rw e (ground arith)
  in_nodes (b ∷ atoms) a (Memᴰ.tail m) = let h = in_nodes atoms a m in ground arith

  rule_in :
      (rules : List Rule) (d : Derivation)
      → InRules d (lit_derivations (rules_named ids rules))
      → (r : Rule) × Memᴰ r rules
        × (d.conclusion ≡ node r.head)
        × (d.body ≡ lit_nodes (all_named ids r.body))
  rule_in [] d m = elim m [ ]
  rule_in (r ∷ rules) d m = elim (InRules-split m) [
    | inl e ↦ (
      r,
      Memᴰ.head refl,
      sym (ap (λ (x : Derivation). x.conclusion) e),
      sym (ap (λ (x : Derivation). x.body) e),
    )
    | inr later ↦ let (q, n, c, b) = rule_in rules d later in (q, Memᴰ.tail n, c, b)
  ]

  abbrev derivation_of : Rule → Derivation
  derivation_of r = record { conclusion = node r.head; body = lit_nodes (all_named ids r.body) }

  in_rules :
      (rules : List Rule) (r : Rule)
      → Memᴰ r rules
      → InRules (derivation_of r) (lit_derivations (rules_named ids rules))
  in_rules [] r m = elim m [ ]
  in_rules (q ∷ rules) r (Memᴰ.head e) = rw e here
  in_rules (q ∷ rules) r (Memᴰ.tail m) = there (in_rules rules r m)

  -- every claim of the facts and the rules has a key of the table
  pub record Keyed (facts : List Atom) (rules : List Rule) : Type 0 where
    pub of_fact : (a : Atom) → Memᴰ a facts → contains keys a.key ≡ true
    pub of_head : (r : Rule) → Memᴰ r rules → contains keys r.head.key ≡ true
    pub of_body :
        (r : Rule) → Memᴰ r rules → (b : Atom) → Memᴰ b r.body → contains keys b.key ≡ true

  module _ (facts : List Atom) (rules : List Rule) (keyed : Keyed facts rules) where
    abbrev InModel : NodeId → Type 0
    InModel n =
        Supported (contains (lit_nodes (all_named ids facts)))
          (lit_derivations (rules_named ids rules)) n

    Follows-InModel : (a : Atom) → Follows facts rules a → InModel (node a)
    Follows-InModel a (stated _ m) = fact (in_nodes facts a m)
    Follows-InModel a (concluded r m body) =
        derived (derivation_of r) (in_rules rules r m)
          (λ n h. let (b, k, e) = node_in r.body n h in rw e at (Follows-InModel b (body b k)))

    abbrev Named : NodeId → Type 0
    Named n = (a : Atom) × (contains keys a.key ≡ true) × Follows facts rules a × (node a ≡ n)

    InModel-Named : (n : NodeId) → InModel n → Named n
    InModel-Named n (fact h) =
        let (a, m, e) = node_in facts n h in (a, keyed.of_fact a m, stated a m, e)
    InModel-Named n (derived d m body) =
        let (r, k, head, same) = rule_in rules d m in
        (
          r.head,
          keyed.of_head r k,
          concluded r k (λ b l.
              let listed : contains d.body (node b) ≡ true = rw same (in_nodes r.body b l) in
              let (c, has, follows, e) = InModel-Named (node b) (body (node b) listed) in
              let eq : c ≡ b = node_injective c b has (keyed.of_body r k b l) e in
              rw eq at follows),
          sym head,
        )

    Follows-as : (a b : Atom) → a ≡ b → Follows facts rules a → Follows facts rules b
    Follows-as a b e follows = rw e at follows

    -- The encoded program clashes exactly if the claims conflict.
    pub Clash-Conflict : Clash (all_named ids facts) (rules_named ids rules) ↔ Conflict facts rules
    Clash-Conflict = (
      λ (aid, asserted, denied).
          let (a, ha, fa, ea) = InModel-Named (aid * 2) asserted in
          let (b, hb, fb, eb) = InModel-Named (suc (aid * 2)) denied in
          let (at_a, pa) = node_even a aid ea in
          let (at_b, nb) = node_odd b aid eb in
          let key : b.key ≡ a.key = apart b.key a.key hb ha (at_b ∙ sym at_a) in
          (
            a.key,
            Follows-as a record { key = a.key; positive = true } (same_atom a _ refl pa) fa,
            Follows-as b record { key = a.key; positive = false } (same_atom b _ key nb) fb,
          ),
      λ (k, asserted, denied). (
        position k ids,
        Follows-InModel record { key = k; positive = true } asserted,
        Follows-InModel record { key = k; positive = false } denied,
      ),
    )

pub all_named-append :
    (ids : Interner) (xs ys : List Atom)
    → all_named ids (xs ++ ys) ≡ all_named ids xs ++ all_named ids ys
all_named-append ids [] ys = refl
all_named-append ids (x ∷ xs) ys = ap (λ ls. named ids x ∷ ls) (all_named-append ids xs ys)

key_listed : (atoms : List Atom) (a : Atom) → Memᴰ a atoms → contains (keys_of atoms) a.key ≡ true
unfolding contains
key_listed [] a m = elim m [ ]
key_listed (b ∷ atoms) a (Memᴰ.head e) =
    let k : a.key ≡ b.key = ap (λ (x : Atom). x.key) e in ground arith
key_listed (b ∷ atoms) a (Memᴰ.tail m) = let h = key_listed atoms a m in ground arith

pub keys_of-append :
    (xs ys : List Atom) (k : ℕ)
    → contains (keys_of (xs ++ ys)) k ≡ (contains (keys_of xs) k || contains (keys_of ys) k)
unfolding contains
keys_of-append [] ys k = refl
keys_of-append (x ∷ xs) ys k = let h = keys_of-append xs ys k in ground arith

head_listed :
    (rules : List Rule) (r : Rule) → Memᴰ r rules → contains (rule_keys rules) r.head.key ≡ true
unfolding contains
head_listed [] r m = elim m [ ]
head_listed (q ∷ rules) r (Memᴰ.head e) =
    let k : r.head.key ≡ q.head.key = ap (λ (x : Rule). x.head.key) e in ground arith
head_listed (q ∷ rules) r (Memᴰ.tail m) =
    let h = head_listed rules r m in
    let joined = contains-append (keys_of q.body) (rule_keys rules) r.head.key in ground arith

body_listed :
    (rules : List Rule) (r : Rule)
    → Memᴰ r rules
    → (b : Atom) → Memᴰ b r.body
    → contains (rule_keys rules) b.key ≡ true
unfolding contains
body_listed [] r m b l = elim m [ ]
body_listed (q ∷ rules) r (Memᴰ.head e) b l =
    let in_q : Memᴰ b q.body = rw (ap (λ (x : Rule). x.body) e) at l in
    let h = key_listed q.body b in_q in
    let joined = contains-append (keys_of q.body) (rule_keys rules) b.key in ground arith
body_listed (q ∷ rules) r (Memᴰ.tail m) b l =
    let h = body_listed rules r m b l in
    let joined = contains-append (keys_of q.body) (rule_keys rules) b.key in ground arith

-- the sub-region and its refuter are in the table of the query
pub query-Keyed :
    (ids : Interner) (q : SymbolicQuery)
    (apart : (j k : ℕ)
      → contains (query_keys q) j ≡ true
      → contains (query_keys q) k ≡ true
      → position j ids ≡ position k ids
      → j ≡ k)
    (facts : List Atom)
    → ((k : ℕ)
        → contains (keys_of facts) k ≡ true
        → (contains (keys_of (q.hypothesis ++ q.context)) k || contains (keys_of q.refuter) k)
          ≡ true)
    → Keyed ids (query_keys q) apart facts q.rules
query-Keyed ids q apart facts among =
    let region = keys_of (q.hypothesis ++ q.context) in
    let outer = contains-append region (rule_keys q.rules ++ keys_of q.refuter) in
    let inner = contains-append (rule_keys q.rules) (keys_of q.refuter) in
    record {
      of_fact = λ a m.
          let h = among a.key (key_listed facts a m) in
          let o = outer a.key in let i = inner a.key in ground arith;
      of_head = λ r m.
          let h = head_listed q.rules r m in
          let o = outer r.head.key in let i = inner r.head.key in ground arith;
      of_body = λ r m b l.
          let h = body_listed q.rules r m b l in
          let o = outer b.key in let i = inner b.key in ground arith;
    }
