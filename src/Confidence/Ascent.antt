-- ===== src/Confidence/Ascent.antt =====
-- The rounds of `valuate` in core/confidence.py settle within as many rounds as there are nodes: a
-- later improvement would follow more improved nodes than there are.
use iknos.Prelude.{
  ℕ, zero, suc, ◌+◌, ◌≤◌, ◌<◌, ◌≡◌, ◌↔◌, refl, sym, ◌∙◌, inl, inr, true, false, some, List, [], ◌∷◌,
  length, arith, contains, contains-sorted, Distinct, all-contains, all_witness, ◌==◌, leb,
  Bool-cases, length-subset_le,
}
use iknos.TruthMaintenance.Graph.{NodeId}
use iknos.Confidence.{Valuation, valued, nodes, stable, rounds}
use iknos.Confidence.Laws.{Laws, ≼_refl, ≼_trans, ≼_antisym}
use iknos.Confidence.Rounds.{valued_mono, improves}

module _ {V : Type 0} (call : Valuation V) (laws : Laws call.semiring)
    (exact : (a b : V) → (call.same a b ≡ true) ↔ (a ≡ b)) where
  open call use {supported, semiring, same}

  infix 4 ◌≼◌
  abbrev ◌≼◌ : V → V → Type 0
  a ≼ b = semiring.plus a b ≡ b

  -- the degrees after `k` rounds
  unfoldable pub after : ℕ → NodeId → V
  after zero a = semiring.zero
  after (suc k) a = valued call (after k) a

  pub ascends : (k : ℕ) (a : NodeId) → after k a ≼ after (suc k) a
  unfolding after
  ascends zero a = laws.plus_zero (valued call (λ _. semiring.zero) a)
  ascends (suc k) a = valued_mono call laws (after k) (after (suc k)) (λ b m. ascends k b) a

  ascends_to : (k j : ℕ) (a : NodeId) → k ≤ j → after k a ≼ after j a
  ascends_to k zero a h = let e : k ≡ 0 = omega arith in rw e (≼_refl laws (after 0 a))
  ascends_to k (suc j) a h = elim (Bool-cases (leb k j)) [
    | inl less ↦
        ≼_trans laws (after k a) (after j a) (after (suc j) a) (ascends_to k j a (ground arith))
          (ascends j a)
    | inr same_round ↦ let e : k ≡ suc j = ground arith in rw e (≼_refl laws (after (suc j) a))
  ]

  -- round `k` moves the node
  abbrev Moved : ℕ → NodeId → Type 0
  Moved k a = same (after (suc k) a) (after k a) ≡ false

  -- `t` moved after round `k`, to a degree that round leaves `x` at or above
  abbrev Later : ℕ → NodeId → NodeId → Type 0
  Later k x t = (j : ℕ) × (k < j) × Moved j t × (after (suc j) t ≼ after (suc k) x)

  Later-fresh : (k : ℕ) (y t : NodeId) → Later k y t → (t == y) ≡ false
  Later-fresh k y t (j, less, moved, low) = elim (Bool-cases (t == y)) [
    | inl at ↦
        let e : t ≡ y = ground arith in
        let old : after (suc j) y ≼ after (suc k) y = rw e at low in
        let stays : after (suc j) y ≡ after j y =
          ≼_antisym laws (after (suc j) y) (after j y)
            (≼_trans laws (after (suc j) y) (after (suc k) y) (after j y) old
              (ascends_to (suc k) j y (omega arith)))
            (ascends j y) in
        let moved_y : Moved j y = rw e at moved in
        absurd (let s = (exact (after (suc j) y) (after j y)).1 stays in cc)
    | inr other ↦ other
  ]

  descent :
      (k : ℕ) (x : NodeId) (trail : List NodeId)
      → Distinct (x ∷ trail)
      → contains supported x ≡ true
      → Moved k x
      → ((t : NodeId) → contains trail t ≡ true → (contains supported t ≡ true) × Later k x t)
      → suc (k + length trail) ≤ length (nodes call)
  unfolding contains after
  descent zero x trail once known moved past =
      let fits = length-subset_le (x ∷ trail) (nodes call) once λ t m.
        contains-sorted supported t ∙ elim (Bool-cases (x == t)) [
          | inl at ↦ let e : x ≡ t = ground arith in rw (← e) known
          | inr other ↦ (past t (ground arith)).0
        ] in
      omega arith
  descent (suc k) x trail once known moved past =
      let (y, known_y, moved_y, low) =
        improves call laws exact (after (suc k)) (after k) x (λ a m. ascends k a) moved in
      let later = λ (t : NodeId) (m : contains (x ∷ trail) t ≡ true).
        elim (Bool-cases (x == t)) as (λ _. (contains supported t ≡ true) × Later k y t) [
          | inl at ↦
              let e : x ≡ t = ground arith in rw (← e) (known, (suc k, omega arith, moved, low))
          | inr other ↦
              let (known_t, (j, less, moved_t, low_t)) = past t (ground arith) in
              (
                known_t,
                (
                  j,
                  omega arith,
                  moved_t,
                  ≼_trans laws (after (suc j) t) (after (suc (suc k)) x) (after (suc k) y) low_t
                      low,
                ),
              )
        ] in
      let new : contains (x ∷ trail) y ≡ false = elim (Bool-cases (contains (x ∷ trail) y)) [
        | inl again ↦ absurd (let f = Later-fresh k y y (later y again).1 in ground arith)
        | inr fresh ↦ fresh
      ] in
      let rest = descent k y (x ∷ trail) (new, once) known_y moved_y later in omega arith

  -- Only the first rounds, as many as there are nodes, move a node.
  Moved-less :
      (k : ℕ) (x : NodeId) → contains supported x ≡ true → Moved k x → k < length (nodes call)
  unfolding contains
  Moved-less k x known moved =
      let less = descent k x [] (refl, tt) known moved (λ t m. absurd (ground arith)) in omega arith

  -- the degrees of a round that are the next round's too
  abbrev pub Settled : ℕ → Type 0
  Settled k = (a : NodeId) → contains supported a ≡ true → after (suc k) a ≡ after k a

  pub rounds-Settled :
      (fuel k : ℕ)
      → k ≤ length (nodes call)
      → length (nodes call) < fuel + k
      → (n : ℕ) × (rounds call fuel (after k) ≡ some (after n)) × Settled n
  unfolding rounds after stable
  rounds-Settled zero k early enough = absurd (omega arith)
  rounds-Settled (suc fuel) k early enough = elim (Bool-cases (stable call (after k))) [
    | inl done ↦ (
      k,
      rw done refl,
      λ a m.
          (exact (after (suc k) a) (after k a)).0
            (all-contains _ (nodes call) a done (contains-sorted supported a ∙ m)),
    )
    | inr moves ↦
        let (a, m, moved) = all_witness _ (nodes call) moves in
        let less = Moved-less k a (sym (contains-sorted supported a) ∙ m) moved in
        let (n, e, settled) = rounds-Settled fuel (suc k) (omega arith) (omega arith) in
        (n, rw moves e, settled)
  ]
