-- ===== src/SymbolicGate/Interning.antt =====
-- The interner of core/symbolic_gate.py renames keys to ids without merging any.
use iknos.Prelude.{
  ℕ, ◌≡◌, refl, sym, ap, ◌∙◌, inl, inr, Bool, true, false, List, [], ◌∷◌, ◌++◌, ◌||◌, any, contains,
  contains-append, Bool-cases, arith,
}
use iknos.SymbolicGate.{
  Atom, Rule, SymbolicQuery, Lit, LitRule, Interner, position, intern, intern_all, intern_rules,
  encode,
}

-- an atom under its id in a table
abbrev pub named : Interner → Atom → Lit
named ids a = record { aid = position a.key ids; pol = a.positive }

abbrev pub all_named : Interner → List Atom → List Lit
all_named ids [] = []
all_named ids (a ∷ rest) = named ids a ∷ all_named ids rest

abbrev pub rules_named : Interner → List Rule → List LitRule
rules_named ids [] = []
rules_named ids (r ∷ rs) = (named ids r.head, all_named ids r.body) ∷ rules_named ids rs

abbrev pub keys_of : List Atom → List ℕ
keys_of [] = []
keys_of (a ∷ rest) = a.key ∷ keys_of rest

abbrev pub rule_keys : List Rule → List ℕ
rule_keys [] = []
rule_keys (r ∷ rs) = r.head.key ∷ (keys_of r.body ++ rule_keys rs)

-- the keys that a query mentions
abbrev pub query_keys : SymbolicQuery → List ℕ
query_keys q = keys_of (q.hypothesis ++ q.context) ++ (rule_keys q.rules ++ keys_of q.refuter)

position_injective :
    (ids : Interner) (j k : ℕ)
    → contains ids j ≡ true
    → contains ids k ≡ true
    → position j ids ≡ position k ids
    → j ≡ k
unfolding position contains
position_injective [] j k hj hk e = cc
position_injective (i ∷ ids) j k hj hk e = ground (arith, position_injective ids j k)

position-append_in :
    (ids more : Interner) (k : ℕ)
    → contains ids k ≡ true
    → position k (ids ++ more) ≡ position k ids
unfolding position contains
position-append_in [] more k h = cc
position-append_in (i ∷ ids) more k h = ground (arith, position-append_in ids more k)

position-append_out :
    (ids : Interner) (k : ℕ) → contains ids k ≡ false → position k (ids ++ k ∷ []) ≡ position k ids
unfolding position contains
position-append_out [] k h = ground arith
position-append_out (i ∷ ids) k h = ground (arith, position-append_out ids k)

-- a later table has the keys of an earlier one under the same ids
abbrev Grows : Interner → Interner → Type 0
Grows ids later =
    (k : ℕ)
    → contains ids k ≡ true
    → (contains later k ≡ true) × (position k later ≡ position k ids)

Grows-trans : (a b c : Interner) → Grows a b → Grows b c → Grows a c
Grows-trans a b c f g k h =
    let (in_b, at_b) = f k h in let (in_c, at_c) = g k in_b in (in_c, at_c ∙ at_b)

-- what a run of the interner leaves: the earlier ids, the new keys, and the literals by the table
record Interned (keys : List ℕ) (ids later : Interner) {A : Type 0} (by_table : Interner → A)
    (out : A) : Type 0 where
  grows : Grows ids later
  covers : (k : ℕ) → contains keys k ≡ true → contains later k ≡ true
  only : (k : ℕ) → contains later k ≡ true → (contains ids k || contains keys k) ≡ true
  renamed : (final : Interner) → Grows later final → out ≡ by_table final

Interned-intern :
    (a : Atom) (ids : Interner)
    → Interned (a.key ∷ []) ids (intern a ids).0 (λ t. named t a) (intern a ids).1
unfolding intern contains
Interned-intern a ids = elim (Bool-cases (contains ids a.key)) [
  | inl known ↦ rw known (record {
    grows = λ k h. (h, refl);
    covers = λ k h. let same : a.key ≡ k = ground arith in rw (← same) known;
    only = λ k h. ground arith;
    renamed =
        λ final g. ap (λ (n : ℕ). record { aid = n; pol = a.positive }) (sym (g a.key known).1);
  })
  | inr new ↦
      let present : contains (ids ++ a.key ∷ []) a.key ≡ true =
        ground (arith, contains-append ids (a.key ∷ []) a.key) in
      rw new (record {
        grows = λ k h. (
          ground (arith, contains-append ids (a.key ∷ []) k),
          position-append_in ids (a.key ∷ []) k h,
        );
        covers = λ k h. let same : a.key ≡ k = ground arith in rw (← same) present;
        only = λ k h. ground (arith, contains-append ids (a.key ∷ []) k);
        renamed = λ final g.
            ap (λ (n : ℕ). record { aid = n; pol = a.positive })
              (sym ((g a.key present).1 ∙ position-append_out ids a.key new));
      })
]

-- two runs in a row
Interned-then :
    {A B C : Type 0} (f : Interner → A) (g : Interner → B) (join : A → B → C) (ks js : List ℕ)
    (ids mid later : Interner) (x : A) (y : B)
    → Interned ks ids mid f x
    → Interned js mid later g y
    → Interned (ks ++ js) ids later (λ t. join (f t) (g t)) (join x y)
Interned-then f g join ks js ids mid later x y one two = record {
  grows = Grows-trans ids mid later one.grows two.grows;
  covers = λ k h. elim (Bool-cases (contains ks k)) [
    | inl left ↦ (two.grows k (one.covers k left)).0
    | inr right ↦ two.covers k (ground (arith, contains-append ks js k))
  ];
  only = λ k h. elim (Bool-cases (contains mid k)) [
    | inl in_mid ↦ let early = one.only k in_mid in ground (arith, contains-append ks js k)
    | inr new ↦ let late = two.only k h in ground (arith, contains-append ks js k)
  ];
  renamed = λ final h.
      ap (λ (a : _). join a y) (one.renamed final (Grows-trans mid later final two.grows h))
      ∙ ap (join (f final)) (two.renamed final h);
}

Interned-all :
    (atoms : List Atom) (ids : Interner)
    → Interned
        (keys_of atoms)
        ids
        (intern_all atoms ids).0
        (λ t. all_named t atoms)
        (intern_all atoms ids).1
unfolding intern_all contains
Interned-all [] ids = record {
  grows = λ k h. (h, refl);
  covers = λ k h. cc;
  only = λ k h. ground arith;
  renamed = λ final g. refl;
}
Interned-all (a ∷ rest) ids =
    Interned-then (λ t. named t a) (λ t. all_named t rest) (λ l ls. l ∷ ls) (a.key ∷ [])
      (keys_of rest) ids (intern a ids).0 _ (intern a ids).1 _ (Interned-intern a ids)
      (Interned-all rest (intern a ids).0)

Interned-rules :
    (rs : List Rule) (ids : Interner)
    → Interned
        (rule_keys rs)
        ids
        (intern_rules rs ids).0
        (λ t. rules_named t rs)
        (intern_rules rs ids).1
unfolding intern_rules contains
Interned-rules [] ids = record {
  grows = λ k h. (h, refl);
  covers = λ k h. cc;
  only = λ k h. ground arith;
  renamed = λ final g. refl;
}
Interned-rules (r ∷ rs) ids =
    let (with_head, head) = intern r.head ids in
    let (with_body, body) = intern_all r.body with_head in
    let (final, rules) = intern_rules rs with_body in
    Interned-then {B = List Lit × List LitRule} {C = List LitRule} (λ t. named t r.head)
      (λ t. (all_named t r.body, rules_named t rs)) (λ h p. (h, p.0) ∷ p.1) (r.head.key ∷ [])
      (keys_of r.body ++ rule_keys rs) ids with_head final head (body, rules)
      (Interned-intern r.head ids)
      (Interned-then {C = List Lit × List LitRule} (λ t. all_named t r.body) (λ t. rules_named t rs)
        (λ b q. (b, q)) (keys_of r.body) (rule_keys rs) with_head with_body final body rules
        (Interned-all r.body with_head) (Interned-rules rs with_body))

-- What the solver is asked is the query with each key under an id: one table names every literal
-- of the sub-region, of the rules and of the refuter, and two keys of the query never share an id.
pub encode_lem :
    (q : SymbolicQuery)
    → (ids : Interner) × ((encode q).base_lits ≡ all_named ids (q.hypothesis ++ q.context))
      × ((encode q).rule_lits ≡ rules_named ids q.rules)
      × ((encode q).refuter_lits ≡ all_named ids q.refuter)
      × ((j k : ℕ)
          → contains (query_keys q) j ≡ true
          → contains (query_keys q) k ≡ true
          → position j ids ≡ position k ids
          → j ≡ k)
unfolding encode
encode_lem q =
    let atoms = q.hypothesis ++ q.context in
    let (with_base, base) = intern_all atoms [] in
    let (with_rules, rules) = intern_rules q.rules with_base in
    let (final, refuter) = intern_all q.refuter with_rules in
    let one = Interned-all atoms [] in
    let two = Interned-rules q.rules with_base in
    let three = Interned-all q.refuter with_rules in
    let whole =
      Interned-then {B = List LitRule × List Lit} {C = List Lit × (List LitRule × List Lit)}
        (λ t. all_named t atoms) (λ t. (rules_named t q.rules, all_named t q.refuter))
        (λ b p. (b, p)) (keys_of atoms) (rule_keys q.rules ++ keys_of q.refuter) [] with_base final
        base (rules, refuter) one
        (Interned-then {C = List LitRule × List Lit} (λ t. rules_named t q.rules)
          (λ t. all_named t q.refuter) (λ r f. (r, f)) (rule_keys q.rules) (keys_of q.refuter)
          with_base with_rules final rules refuter two three) in
    (
      final,
      one.renamed final (Grows-trans with_base with_rules final two.grows three.grows),
      two.renamed final three.grows,
      three.renamed final (λ k h. (h, refl)),
      λ j k hj hk. position_injective final j k (whole.covers j hj) (whole.covers k hk),
    )

-- the sub-region mentions this key, in an atom or in a rule
abbrev pub mentions : SymbolicQuery → ℕ → Bool
mentions q k = contains (keys_of (q.hypothesis ++ q.context)) k || contains (rule_keys q.rules) k

same_any :
    (f g : ℕ → Bool) (atoms : List Atom)
    → ((k : ℕ) → f k ≡ g k)
    → any (λ a. f a.key) atoms ≡ any (λ a. g a.key) atoms
same_any f g [] same = refl
same_any f g (a ∷ atoms) same = let h = same a.key in let rest = same_any f g atoms same in cc

only_keys :
    {A : Type 0} {keys : List ℕ} {later : Interner} {by_table : Interner → A} {out : A}
    → Interned keys [] later by_table out
    → (k : ℕ) → contains later k ≡ true
    → contains keys k ≡ true
unfolding contains
only_keys run k h = run.only k h

-- The refuter is related exactly if one of its claims has a key that the sub-region mentions.
pub related-mentions :
    (q : SymbolicQuery) → (encode q).related ≡ any (λ a. mentions q a.key) q.refuter
unfolding encode
related-mentions q =
    let atoms = q.hypothesis ++ q.context in
    let (with_base, base) = intern_all atoms [] in
    let (with_rules, rules) = intern_rules q.rules with_base in
    let one = Interned-all atoms [] in
    let two = Interned-rules q.rules with_base in
    same_any (contains with_rules) (mentions q) q.refuter (λ k.
      let forth = λ (h : contains with_rules k ≡ true).
        elim (Bool-cases (contains with_base k)) as (λ _. mentions q k ≡ true) [
          | inl early ↦ let from_base = only_keys one k early in ground arith
          | inr late ↦ let from_rules = two.only k h in ground arith
        ] in
      elim (Bool-cases (contains with_rules k)) [
        | inl known ↦ known ∙ sym (forth known)
        | inr unknown ↦ elim (Bool-cases (mentions q k)) [
          | inr no_mention ↦ unknown ∙ sym no_mention
          | inl mentioned ↦ elim (Bool-cases (contains (keys_of atoms) k)) [
            | inl in_base ↦ (two.grows k (one.covers k in_base)).0 ∙ sym mentioned
            | inr in_rules ↦ two.covers k (ground arith) ∙ sym mentioned
          ]
        ]
      ])
