-- ===== src/TruthMaintenance/Incremental/Deletion/Over.antt =====
-- The over-deletion: with enough fuel it ends, and what it returns holds the seeds and is closed
-- under the rules inside the supported set.
use iknos.Prelude.{
  ℕ, zero, suc, ◌+◌, ◌≤◌, ◌≡◌, ◌∙◌, ap, true, false, ◌||◌, inl, inr, List, [], ◌∷◌, some, arith,
  contains, ◌==◌, Bool-cases, length, Distinct, unmet_of_step, unmet_of_cong, with_one,
}
use iknos.TruthMaintenance.Graph.{NodeId, Derivation}
use iknos.TruthMaintenance.Entries.{Entry, find, ids, ids_using, contains-ids_using, head_of}
use iknos.TruthMaintenance.Front.Laws.{head_of-find}
use iknos.TruthMaintenance.Incremental.Deletion.{push_heads, over_delete, body_total}

module _ (es : List Entry) (supported over : List NodeId) where
  push_heads_grows :
      (is stack : List ℕ) (x : NodeId)
      → contains stack x ≡ true
      → contains (push_heads es supported over is stack) x ≡ true
  unfolding push_heads contains
  push_heads_grows [] stack x h = h
  push_heads_grows (i ∷ is) stack x h = push_heads_grows is _ x (ground arith)

  push_heads_pushes :
      (is stack : List ℕ) (i : ℕ)
      → contains is i ≡ true
      → contains supported (head_of es i) ≡ true
      → contains over (head_of es i) ≡ false
      → contains (push_heads es supported over is stack) (head_of es i) ≡ true
  unfolding push_heads contains
  push_heads_pushes [] stack i m s n = cc
  push_heads_pushes (j ∷ is) stack i m s n = elim (Bool-cases (j == i)) [
    | inl same ↦
        let e : j ≡ i = ground arith in
        push_heads_grows is _ (head_of es i) (rw (e, s, n) (ground arith))
    | inr other ↦ push_heads_pushes is _ i (ground arith) s n
  ]

  length-push_heads :
      (is stack : List ℕ)
      → length (push_heads es supported over is stack) ≤ length is + length stack
  unfolding push_heads
  length-push_heads [] stack = omega arith
  length-push_heads (i ∷ is) stack =
      ground (arith, length-push_heads is (head_of es i ∷ stack), length-push_heads is stack)

-- a node that is already over-deleted need not wait
drop_seen :
    (over stack : List NodeId) (node x : NodeId)
    → contains over node ≡ true
    → (contains over x || (node == x || contains stack x)) ≡ true
    → (contains over x || contains stack x) ≡ true
drop_seen over stack node x seen m = elim (Bool-cases (node == x)) [
  | inl same ↦
      let e : node ≡ x = ground arith in
      let inside : contains over x ≡ true = rw e at seen in ground arith
  | inr other ↦ ground arith
]

body_total_step :
    (es : List Entry) (over : List NodeId) (n : NodeId)
    → contains over n ≡ false
    → body_total es over ≡ body_total es (n ∷ over) + length (ids_using n es)
unfolding body_total ids_using contains
body_total_step [] over n h = omega arith
body_total_step ((i, d) ∷ es) over n h =
    let one = unmet_of_step (contains over) n h d.body in
    let same =
      unmet_of_cong (with_one (contains over) n h) (contains (n ∷ over)) d.body
        (λ a m. ground arith) in
    ground (arith, body_total_step es over n h, one, same)

module _ (es : List Entry) (keys : Distinct (ids es)) (supported : List NodeId) where
  -- the supported conclusions of the rules that use an over-deleted node are over-deleted or wait
  abbrev pub Covers : List NodeId → List NodeId → Type 0
  Covers over stack =
      (i : ℕ) (d : Derivation) (a : NodeId)
      → find es i ≡ some d
      → contains over a ≡ true
      → contains d.body a ≡ true
      → contains supported d.conclusion ≡ true
      → (contains over d.conclusion || contains stack d.conclusion) ≡ true

  pub record Over (over stack result : List NodeId) : Type 0 where
    pub seeds :
        (x : NodeId) → (contains over x || contains stack x) ≡ true → contains result x ≡ true
    pub closed : Covers result []

  module _ (uses : NodeId → List ℕ) (listed : (a : NodeId) → uses a ≡ ids_using a es) where
    Covers-step :
        (over stack : List NodeId) (node : NodeId)
        → Covers over (node ∷ stack)
        → Covers (node ∷ over) (push_heads es supported (node ∷ over) (uses node) stack)
    unfolding contains
    Covers-step over stack node c i d a found m used sup =
        elim (Bool-cases (contains (node ∷ over) d.conclusion)) [
          | inl inside ↦ rw inside
          | inr outside ↦ elim (Bool-cases (node == a)) [
            | inl same ↦
                let e : node ≡ a = ground arith in
                let head = head_of-find es i d found in
                let member : contains (uses node) i ≡ true =
                  rw (listed node, e) (contains-ids_using a es i d keys found ∙ used) in
                let pushed =
                  push_heads_pushes es supported (node ∷ over) (uses node) stack i member
                    (rw head sup) (rw head outside) in
                rw (outside, ← head) pushed
            | inr other ↦
                let old = c i d a found (ground arith) used sup in
                rw outside (
                  push_heads_grows es supported (node ∷ over) (uses node) stack d.conclusion
                    (ground arith))
          ]
        ]

    pub over_delete-Over :
        (fuel : ℕ) (over stack : List NodeId)
        → length stack + body_total es over ≤ fuel
        → Covers over stack
        → Over over stack (over_delete es uses supported fuel over stack).0
    unfolding over_delete contains
    over_delete-Over zero over [] h c = record { seeds = λ x m. ground arith; closed = c }
    over_delete-Over zero over (node ∷ stack) h c = absurd (omega arith)
    over_delete-Over (suc fuel) over [] h c = record { seeds = λ x m. ground arith; closed = c }
    over_delete-Over (suc fuel) over (node ∷ stack) h c = elim (Bool-cases (contains over node)) [
      | inl seen ↦
          let r = over_delete-Over fuel over stack (omega arith) (λ i d a found m used sup.
            drop_seen over stack node d.conclusion seen (c i d a found m used sup)) in
          rw (seen, over_delete)
            (record {
              seeds = λ x m. r.seeds x (drop_seen over stack node x seen m);
              closed = r.closed;
            })
      | inr new ↦
          let stack' = push_heads es supported (node ∷ over) (uses node) stack in
          let room = length-push_heads es supported (node ∷ over) (uses node) stack in
          let spent = body_total_step es over node new in
          let r =
            over_delete-Over fuel (node ∷ over) stack' (omega (arith, ap length (listed node)))
              (Covers-step over stack node c) in
          rw (new, over_delete)
            (record {
              seeds = λ x m.
                  r.seeds x (
                    ground
                      (arith, push_heads_grows es supported (node ∷ over) (uses node) stack x));
              closed = r.closed;
            })
    ]
