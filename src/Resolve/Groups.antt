-- ===== src/Resolve/Groups.antt =====
-- The groups that `components` of core/resolve.py makes of a forest.
use iknos.Prelude.{
  ℕ, ◌≡◌, ◌≢◌, sym, ◌∙◌, ◌&&◌, ◌||◌, inl, inr, true, Bool, List, [], ◌∷◌, length, Each, any,
  contains, ltb, ◌==◌, ==_refl, if◌then◌else◌, Bool-cases, arith,
}
use iknos.Resolve.{EntityId, Forest, find_root, add_member, grouped, several}
use iknos.Resolve.Roots.{Root, Root-unique}
use iknos.Resolve.Finds.{IsForest, Keeps, find_root-Found}

-- the members under a key
abbrev pub members_at : EntityId → List (EntityId × List EntityId) → List EntityId
members_at r [] = []
members_at r ((key, members) ∷ groups) = if key == r then members else members_at r groups

members_at-add_member :
    (root node r : EntityId) (groups : List (EntityId × List EntityId)) (a : EntityId)
    → contains (members_at r (add_member root node groups)) a
      ≡ (contains (members_at r groups) a || (root == r && node == a))
unfolding add_member contains
members_at-add_member root node r [] a = elim (Bool-cases (root == r)) [
  | inl at_r ↦ ground arith
  | inr other ↦ ground arith
]
members_at-add_member root node r ((key, members) ∷ groups) a = elim (Bool-cases (key == root)) [
  | inl here ↦
      let e : key ≡ root = ground arith in
      elim (Bool-cases (key == r)) [
        | inl at_r ↦
            let f : root ≡ r = ground arith in
            elim (Bool-cases (contains members node)) [
              | inl old ↦ ground arith
              | inr new ↦ ground arith
            ]
        | inr other ↦ ground arith
      ]
  | inr later ↦
      let rest = members_at-add_member root node r groups a in
      elim (Bool-cases (key == r)) [ inl at_r ↦ ground arith | inr other ↦ ground arith ]
]

module _ (parent : EntityId → EntityId) where
  -- the members of a group have its key for their root
  abbrev pub Rooted : EntityId × List EntityId → Type 0
  Rooted g = (a : EntityId) → contains g.1 a ≡ true → (n : ℕ) × Root parent n a g.0

  Each-add_member :
      (n : ℕ) (root node : EntityId) (groups : List (EntityId × List EntityId))
      → Root parent n node root
      → Each Rooted groups
      → Each Rooted (add_member root node groups)
  unfolding add_member contains
  Each-add_member n root node [] is_root each =
      (λ a m. let e : node ≡ a = ground arith in (n, rw (sym e) is_root), tt)
  Each-add_member n root node ((key, members) ∷ groups) is_root each =
      elim (Bool-cases (key == root)) [
        | inr later ↦
            rw (later, add_member) (each.0, Each-add_member n root node groups is_root each.1)
        | inl here ↦
            let e : key ≡ root = ground arith in
            let grown : Rooted (key, if contains members node then members else node ∷ members) =
              λ a m. elim (Bool-cases (contains members a)) [
                | inl old ↦ each.0 a old
                | inr new ↦ elim (Bool-cases (node == a)) [
                  | inl same ↦ let at_a : node ≡ a = ground arith in (n, rw (e, sym at_a) is_root)
                  | inr other ↦ absurd (elim (Bool-cases (contains members node)) [
                    | inl has ↦ ground arith
                    | inr has_not ↦ ground arith
                  ])
                ]
              ] in
            rw (here, add_member) (grown, each.1)
      ]

  -- what the loop over the nodes makes, in any forest that keeps the roots
  pub record Grouped (nodes : List EntityId) (before after : List (EntityId × List EntityId))
      : Type 0 where
    pub sound : Each Rooted before → Each Rooted after
    pub complete :
        (n : ℕ) (a r : EntityId)
        → Root parent n a r
        → contains nodes a ≡ true
        → contains (members_at r after) a ≡ true
    pub stays :
        (a r : EntityId)
        → contains (members_at r before) a ≡ true
        → contains (members_at r after) a ≡ true

  pub grouped-Grouped :
      (p : (y : EntityId) → (n : ℕ) × (r : EntityId) × Root parent n y r)
      → (f : Forest) → IsForest f
      → Keeps parent f.parent
      → (nodes : List EntityId) (groups : List (EntityId × List EntityId))
      → Grouped nodes groups (grouped nodes f groups)
  unfolding grouped contains
  grouped-Grouped p f forest keeps [] groups = record {
    sound = λ each. each;
    complete = λ n a r root m. absurd cc;
    stays = λ a r m. m;
  }
  grouped-Grouped p f forest keeps (node ∷ nodes) groups =
      let found = find_root-Found node f forest in
      let root = (find_root node f).0 in
      let (n, r, is_root) = p node in
      let (k, now) = keeps n node r is_root in
      let same : r ≡ root = (Root-unique f.parent k found.steps node r root now found.is_root).1 in
      let at_root : Root parent n node root = rw same at is_root in
      let rest =
        grouped-Grouped p (find_root node f).1 found.forest
          (λ m z s there. let (i, mid) = keeps m z s there in found.keeps i z s mid) nodes
          (add_member root node groups) in
      record {
        sound = λ each. rest.sound (Each-add_member n root node groups at_root each);
        complete = λ m a s there listed. elim (Bool-cases (node == a)) [
          | inl at_a ↦
              let e : node ≡ a = ground arith in
              let from_node : Root parent m node s = rw e there in
              let t : root ≡ s = (Root-unique parent n m node root s at_root from_node).1 in
              let b : (root == s) ≡ true = rw t (==_refl s) in
              rest.stays a s (members_at-add_member root node s groups a ∙ ground arith)
          | inr other ↦ rest.complete m a s there (ground arith)
        ];
        stays = λ a s m. rest.stays a s (members_at-add_member root node s groups a ∙ ground arith);
      }

pub several_members :
    (a b : EntityId) (members : List EntityId)
    → a ≢ b
    → contains members a ≡ true
    → contains members b ≡ true
    → ltb 1 (length members) ≡ true
unfolding contains
several_members a b [] apart m k = absurd cc
several_members a b (c ∷ []) apart m k =
    absurd (let e : c ≡ a = ground arith in let f : c ≡ b = ground arith in apart (sym e ∙ f))
several_members a b (c ∷ d ∷ members) apart m k = ground arith

-- one of the groups has both
abbrev pub together : EntityId → EntityId → List (List EntityId) → Bool
together a b groups = any (λ g. contains g a && contains g b) groups

pub together-several :
    (a b r : EntityId) (groups : List (EntityId × List EntityId))
    → a ≢ b
    → contains (members_at r groups) a ≡ true
    → contains (members_at r groups) b ≡ true
    → together a b (several groups) ≡ true
unfolding several contains
together-several a b r [] apart m k = absurd cc
together-several a b r ((key, members) ∷ groups) apart m k = elim (Bool-cases (key == r)) [
  | inl at_r ↦
      let in_a : contains members a ≡ true = ground arith in
      let in_b : contains members b ≡ true = ground arith in
      let size = several_members a b members apart in_a in_b in ground arith
  | inr other ↦
      let rest = together-several a b r groups apart (ground arith) (ground arith) in ground arith
]

pub several-Rooted :
    (parent : EntityId → EntityId) (a b : EntityId) (groups : List (EntityId × List EntityId))
    → Each (Rooted parent) groups
    → together a b (several groups) ≡ true
    → (r : EntityId) × ((n : ℕ) × Root parent n a r) × ((m : ℕ) × Root parent m b r)
unfolding several
several-Rooted parent a b [] each m = absurd cc
several-Rooted parent a b ((key, members) ∷ groups) each m =
    elim (Bool-cases (contains members a && contains members b)) [
      | inl both ↦ (key, each.0 a (ground arith), each.0 b (ground arith))
      | inr apart ↦ several-Rooted parent a b groups each.1 (ground arith)
    ]
