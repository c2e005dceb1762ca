-- ===== src/DomainPack/Rolls.antt =====
-- The search of `transitive_closure` in domain/pack.py: it takes what chains of relations lead to.
use iknos.Prelude.{
  ℕ, zero, suc, ◌≤◌, ◌≡◌, inl, inr, true, false, ◌&&◌, ◌||◌, List, [], ◌∷◌, Each, arith, contains,
  ltb, ◌==◌, Bool-cases,
}
use iknos.DomainPack.{PartOfRelation, linked, targets, safe, RollFront, enqueue, rolls_up, roll}
use iknos.DomainPack.Chains.{Chain, one, more}
use iknos.DomainPack.Search.{
  nodes_of, targets-linked, wholes, wholes-linked, work, Enqueued, enqueue-Enqueued,
}

module _ (rels : List PartOfRelation) (start : ℕ) where
  abbrev pub Reaches : ℕ → Type 0
  Reaches x = Chain (linked (safe rels)) start x

  -- a waiting node is reached, and one that is one step away is a declared whole
  abbrev pub Placed : ℕ × ℕ → Type 0
  Placed (w, d) = Reaches w × (1 ≤ d) × (ltb 1 d ≡ false → linked rels start w ≡ true)

  abbrev next : ℕ → ℕ → List (ℕ × ℕ) → List ℕ → RollFront
  next node depth waiting seen =
      enqueue (targets (safe rels) node) (suc depth) record { waiting = waiting; local_seen = seen }

  next-Enqueued :
      (node depth : ℕ) (waiting : List (ℕ × ℕ)) (seen : List ℕ)
      → Reaches node
      → 1 ≤ depth
      → Each Placed waiting
      → Enqueued Placed
          (wholes rels)
          (targets (safe rels) node)
          record { waiting = waiting; local_seen = seen }
          (next node depth waiting seen)
  next-Enqueued node depth waiting seen at deep h =
      enqueue-Enqueued Placed (wholes rels) (targets (safe rels) node) (suc depth)
        record { waiting = waiting; local_seen = seen } h
        λ w m.
          let l : linked (safe rels) node w ≡ true =
            ground (arith, targets-linked (safe rels) node w) in
          ((more at l, omega arith, λ one_step. absurd (ground arith)), wholes-linked rels node w l)

  pub roll_sound :
      (fuel : ℕ) (waiting : List (ℕ × ℕ)) (seen : List ℕ)
      → Each Placed waiting
      → (x : ℕ) → contains (roll fuel rels start waiting seen) x ≡ true
      → Reaches x × (linked rels start x ≡ false)
  unfolding roll contains
  roll_sound zero waiting seen h x m = cc
  roll_sound (suc fuel) [] seen h x m = cc
  roll_sound (suc fuel) ((node, depth) ∷ waiting) seen h x m =
      let after = next-Enqueued node depth waiting seen h.0.0 h.0.1 h.1 in
      let f = next node depth waiting seen in
      elim (Bool-cases (rolls_up rels start node depth && node == x)) [
        | inl at ↦ let e : node ≡ x = ground arith in (rw (← e) h.0.0, rw (← e) (ground arith))
        | inr other ↦ roll_sound fuel f.waiting f.local_seen after.holds x (ground arith)
      ]

  pub record Search (done : List ℕ) (waiting : List (ℕ × ℕ)) (seen : List ℕ) : Type 0 where
    pub placed : Each Placed waiting
    pub covered :
        (x : ℕ) → contains seen x ≡ true → (contains done x || contains (nodes_of waiting) x) ≡ true
    pub first : (x : ℕ) → linked (safe rels) start x ≡ true → contains seen x ≡ true
    pub closed :
        (a b : ℕ) → contains done a ≡ true → linked (safe rels) a b ≡ true → contains seen b ≡ true

  Search-next :
      (done : List ℕ) (node depth : ℕ) (waiting : List (ℕ × ℕ)) (seen : List ℕ)
      → Search done ((node, depth) ∷ waiting) seen
      → let f = next node depth waiting seen in Search (node ∷ done) f.waiting f.local_seen
  unfolding contains
  Search-next done node depth waiting seen h =
      let after = next-Enqueued node depth waiting seen h.placed.0.0 h.placed.0.1 h.placed.1 in
      record {
        placed = after.holds;
        covered = λ x m. ground (arith, after.seen x, after.waits x, h.covered x);
        first = λ x l. ground (arith, after.seen x, h.first x);
        closed = λ a b m l. elim (Bool-cases (node == a)) [
          | inl at ↦
              let e : node ≡ a = ground arith in
              let t : linked (safe rels) node b ≡ true = rw e l in
              ground (arith, after.seen b, targets-linked (safe rels) node b)
          | inr other ↦ let old = h.closed a b (ground arith) l in ground (arith, after.seen b)
        ];
      }

  -- with nothing left to take, all that is reached was taken
  Search-empty :
      (done seen : List ℕ) → Search done [] seen → {x : ℕ} → Reaches x → contains done x ≡ true
  unfolding contains
  Search-empty done seen h (one {b} l) = ground (arith, h.covered b, h.first b)
  Search-empty done seen h (more {b} {c} p l) =
      let at = Search-empty done seen h p in ground (arith, h.covered c, h.closed b c at l)

  pub roll_complete :
      (fuel : ℕ) (done : List ℕ) (waiting : List (ℕ × ℕ)) (seen : List ℕ)
      → Search done waiting seen
      → work (wholes rels) record { waiting = waiting; local_seen = seen } ≤ fuel
      → (x : ℕ) → Reaches x
      → linked rels start x ≡ false
      → contains done x ≡ false
      → contains (roll fuel rels start waiting seen) x ≡ true
  unfolding roll contains
  roll_complete fuel done [] seen h enough x r far new =
      absurd (let m = Search-empty done seen h r in cc)
  roll_complete zero done (n ∷ waiting) seen h enough x r far new = absurd (omega arith)
  roll_complete (suc fuel) done ((node, depth) ∷ waiting) seen h enough x r far new =
      let f = next node depth waiting seen in
      let after = next-Enqueued node depth waiting seen h.placed.0.0 h.placed.0.1 h.placed.1 in
      elim (Bool-cases (node == x)) [
        | inl at ↦
            let e : node ≡ x = ground arith in
            let away : linked rels start node ≡ false = rw e far in ground (arith, h.placed.0.2)
        | inr other ↦
            let rest =
              roll_complete fuel (node ∷ done) f.waiting f.local_seen
                (Search-next done node depth waiting seen h) (let c = after.cheaper in omega arith)
                x r far (ground arith) in
            ground arith
      ]
