-- ===== src/DomainPack/Chains.antt =====
-- Chains of links, and where a cycle must be: the graph side of domain/pack.py.
use iknos.Prelude.{
  ℕ, zero, suc, ◌+◌, ◌≤◌, ◌≡◌, refl, ◌⊎◌, inl, inr, Bool, true, List, [], ◌∷◌, length, arith,
  contains, Distinct, ◌==◌, Bool-cases, length-subset_le,
}

module _ (link : ℕ → ℕ → Bool) where
  -- one link or more lead from `a` to `b`
  pub data Chain : ℕ → ℕ → Type 0 where
    one : {a b : ℕ} → link a b ≡ true → Chain a b
    more : {a b c : ℕ} → Chain a b → link b c ≡ true → Chain a c

  pub before : {a b c : ℕ} → link a b ≡ true → Chain b c → Chain a c
  before l (one k) = more (one l) k
  before l (more p k) = more (before l p) k

  -- `x` stands on a cycle or behind one
  abbrev pub Behind : ℕ → Type 0
  Behind x = (a : ℕ) × Chain a a × ((a ≡ x) ⊎ Chain a x)

  Behind-link : {a b : ℕ} → link a b ≡ true → Behind a → Behind b
  Behind-link l (c, cycle, inl at) = (c, cycle, inr (one (rw at l)))
  Behind-link l (c, cycle, inr p) = (c, cycle, inr (more p l))

  module _ (stuck : ℕ → Bool) (nodes : List ℕ)
      (known : (x : ℕ) → stuck x ≡ true → contains nodes x ≡ true)
      (pred : (x : ℕ) → stuck x ≡ true → (p : ℕ) × (link p x ≡ true) × (stuck p ≡ true)) where
    descend :
        (fuel : ℕ) (x : ℕ) (trail : List ℕ)
        → Distinct (x ∷ trail)
        → stuck x ≡ true
        → ((y : ℕ) → contains trail y ≡ true → (stuck y ≡ true) × Chain x y)
        → length nodes ≤ fuel + length trail
        → Behind x
    unfolding contains
    descend zero x trail d s past long =
        let fits = length-subset_le (x ∷ trail) nodes d λ y m. elim (Bool-cases (x == y)) [
          | inl same ↦ let e : x ≡ y = ground arith in rw (← e) (known x s)
          | inr other ↦ known y (past y (ground arith)).0
        ] in
        absurd (omega arith)
    descend (suc fuel) x trail d s past long =
        let (p, l, sp) = pred x s in
        elim (Bool-cases (x == p)) [
          | inl same ↦ let e : x ≡ p = ground arith in (x, one (rw (← e) at l), inl refl)
          | inr differs ↦ elim (Bool-cases (contains trail p)) [
            | inl again ↦ (p, before l (past p again).1, inr (one l))
            | inr fresh ↦ Behind-link l (
                descend fuel p (x ∷ trail) (ground arith, d) sp
                  (λ y m. elim (Bool-cases (x == y)) [
                    | inl same ↦ let e : x ≡ y = ground arith in (rw (← e) s, rw (← e) (one l))
                    | inr other ↦ let (sy, c) = past y (ground arith) in (sy, before l c)
                  ])
                  (omega arith))
          ]
        ]

    -- In a finite set where each node has a predecessor in the set, each stands behind a cycle.
    pub stuck-Behind : (x : ℕ) → stuck x ≡ true → Behind x
    unfolding contains
    stuck-Behind x s =
        descend (length nodes) x [] (refl, tt) s (λ y m. absurd (ground arith)) (omega arith)
