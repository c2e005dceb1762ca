-- ===== src/DomainPack/Cycles.antt =====
-- `_reject_cycles` of domain/pack.py accepts exactly the hierarchies without a cycle.
use iknos.Prelude.{
  ℕ, ◌<◌, ◌≡◌, ◌↔◌, refl, sym, ◌∙◌, if◌then◌else◌, inl, inr, Bool, true, false, ◌&&◌, none, some,
  List, [], ◌∷◌, length, arith, contains, contains-sorted, keep, contains-keep, Distinct, ltb, ◌==◌,
  Bool-cases, length-subset_le,
}
use iknos.DomainPack.{PartOfRelation, linked, Drained, drained, cyclic, reject_cycles}
use iknos.DomainPack.Chains.{Chain, one, more, Behind, stuck-Behind}
use iknos.DomainPack.Kahn.{open_in-linked, open_in_witness}
use iknos.DomainPack.Drain.{IsOrdered, Finished, done-contains, drained-Finished}

module _ (rels : List PartOfRelation) (nodes : List ℕ)
    (closed : (a b : ℕ) → linked rels a b ≡ true → contains nodes b ≡ true) where
  -- the turn of a node, counted from the first
  abbrev turn : List ℕ → ℕ → ℕ
  turn [] x = 0
  turn (y ∷ ys) x = if y == x then length ys else turn ys x

  turn-length : (ys : List ℕ) (x : ℕ) → contains ys x ≡ true → turn ys x < length ys
  unfolding contains
  turn-length [] x m = cc
  turn-length (y ∷ ys) x m = ground (arith, turn-length ys x)

  turn-linked :
      (done : List ℕ) (a b : ℕ)
      → Distinct done
      → IsOrdered rels nodes closed done
      → linked rels a b ≡ true
      → contains done b ≡ true
      → (contains done a ≡ true) × (turn done a < turn done b)
  unfolding contains
  turn-linked [] a b once h l m = cc
  turn-linked (y ∷ ys) a b once h l m = elim (Bool-cases (y == b)) [
    | inl at ↦
        let e : y ≡ b = ground arith in
        let ahead = open_in-linked ys rels a b (rw (← e) h.0) l in
        ground (arith, turn-length ys a ahead, once.0)
    | inr other ↦
        let behind = turn-linked ys a b once.1 h.1 l (ground arith) in
        ground (arith, behind, once.0)
  ]

  turn-Chain :
      (done : List ℕ) {a b : ℕ}
      → Distinct done
      → IsOrdered rels nodes closed done
      → Chain (linked rels) a b
      → contains done b ≡ true
      → (contains done a ≡ true) × (turn done a < turn done b)
  turn-Chain done once h (one {a} {b} l) m = turn-linked done a b once h l m
  turn-Chain done once h (more {a} {b} {c} p l) m =
      let last = turn-linked done b c once h l m in
      let first = turn-Chain done once h p last.0 in (first.0, omega arith)

  -- Nothing that was done stands behind a cycle.
  pub done_clear :
      (r : Drained) (f : Finished rels nodes closed r) (k : ℕ)
      → contains f.done k ≡ true
      → ¬ Behind (linked rels) k
  done_clear r f k m (a, cycle, at) =
      let on : contains f.done a ≡ true = elim at [
        | inl e ↦ rw e m
        | inr p ↦ (turn-Chain f.done f.inv.done_once f.inv.ordered p m).0
      ] in
      let less = (turn-Chain f.done f.inv.done_once f.inv.ordered cycle on).1 in
      absurd (omega arith)

  -- The nodes that are left with a part to wait for are those behind a cycle.
  pub left_iff :
      ((a b : ℕ) → linked rels a b ≡ true → contains nodes a ≡ true)
      → (r : Drained) → Finished rels nodes closed r
      → (k : ℕ) → (contains nodes k && ltb 0 (r.indeg k) ≡ true) ↔ Behind (linked rels) k
  unfolding contains
  left_iff parts r f k = (
    stuck-Behind (linked rels) (λ x. contains nodes x && ltb 0 (r.indeg x)) nodes
        (λ x s. ground arith)
        (λ x s.
          let (p, l, waits) = open_in_witness f.done rels x (ground (arith, f.inv.counts x)) in
          let known = parts p x l in (p, l, ground (arith, f.inv.idle p)))
        k,
    λ b.
        let known : contains nodes k ≡ true = Behind-contains b in
        let waits : contains f.done k ≡ false = elim (Bool-cases (contains f.done k)) [
          | inl m ↦ absurd (done_clear r f k m b)
          | inr n ↦ n
        ] in
        ground (arith, f.inv.idle k),
  )
    where
      Chain-contains : {a b : ℕ} → Chain (linked rels) a b → contains nodes b ≡ true
      Chain-contains (one {a} {b} l) = closed a b l
      Chain-contains (more {b} {c} p l) = closed b c l

      Behind-contains : {k : ℕ} → Behind (linked rels) k → contains nodes k ≡ true
      Behind-contains (a, cycle, inl e) = rw (← e) (Chain-contains cycle)
      Behind-contains (a, cycle, inr p) = Chain-contains p

  -- Everything was done exactly if the count is that of the nodes.
  pub visited_all :
      Distinct nodes
      → (r : Drained) (f : Finished rels nodes closed r)
      → (r.visited ≡ length nodes) ↔ ((k : ℕ) → contains nodes k ≡ true → contains f.done k ≡ true)
  unfolding contains
  visited_all once r f = (
    λ same k m. elim (Bool-cases (contains f.done k)) [
      | inl d ↦ d
      | inr waits ↦
          let fits =
            length-subset_le (k ∷ f.done) nodes (waits, f.inv.done_once)
              (λ w n. elim (Bool-cases (k == w)) [
                | inl at ↦ let e : k ≡ w = ground arith in rw (← e) m
                | inr other ↦
                    done-contains rels nodes closed f.done r.indeg [] f.inv w (ground arith)
              ]) in
          absurd (let v = f.visited in omega arith)
    ],
    λ all.
        let less = length-subset_le nodes f.done once all in
        let more =
          length-subset_le f.done nodes f.inv.done_once
            (done-contains rels nodes closed f.done r.indeg [] f.inv) in
        let v = f.visited in omega arith,
  )

  module _ (once : Distinct nodes)
      (parts : (a b : ℕ) → linked rels a b ≡ true → contains nodes a ≡ true) where
    pub reject_cycles_iff :
        (reject_cycles rels nodes ≡ none) ↔ ((a : ℕ) → ¬ Chain (linked rels) a a)
    unfolding reject_cycles contains
    reject_cycles_iff =
        let r = drained rels nodes in
        let f = drained-Finished rels nodes closed once in
        let full = visited_all once r f in
        (
          λ e a cycle.
              let same : r.visited ≡ length nodes = ground arith in
              let on = (left_iff parts r f a).1 (a, cycle, inl refl) in
              done_clear r f a (full.0 same a (ground arith)) (a, cycle, inl refl),
          λ clear.
              let same : r.visited ≡ length nodes = full.1 λ k m.
                elim (Bool-cases (contains f.done k)) [
                  | inl d ↦ d
                  | inr waits ↦
                      let (a, cycle, _) = (left_iff parts r f k).0 (ground (arith, f.inv.idle k)) in
                      absurd (clear a cycle)
                ] in
              ground arith,
        )

    pub reject_cycles-cyclic :
        (ks : List ℕ)
        → reject_cycles rels nodes ≡ some (cyclic ks)
        → (k : ℕ) → (contains ks k ≡ true) ↔ Behind (linked rels) k
    unfolding reject_cycles contains
    reject_cycles-cyclic ks e k =
        let r = drained rels nodes in
        let f = drained-Finished rels nodes closed once in
        let p : ℕ → Bool = λ k. ltb 0 (r.indeg k) in
        let listed : contains ks k ≡ (contains nodes k && ltb 0 (r.indeg k)) =
          ground (arith, contains-sorted (keep p nodes) k, contains-keep p nodes k) in
        (λ m. (left_iff parts r f k).0 (sym listed ∙ m), λ b. listed ∙ (left_iff parts r f k).1 b)
