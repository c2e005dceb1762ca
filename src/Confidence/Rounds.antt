-- ===== src/Confidence/Rounds.antt =====
-- One round of `valuate` in core/confidence.py: it is monotone, and where it improves a node it
-- follows an antecedent that improved before and is at least as strong.
use iknos.Prelude.{
  ◌≡◌, ◌≢◌, ◌↔◌, refl, sym, ap, ◌∙◌, ◌⊎◌, inl, inr, true, false, ◌&&◌, List, [], ◌∷◌, map, arith,
  contains, all, all-contains, all_witness, distinct, contains-distinct, ◌==◌, ==_refl, Bool-cases,
  ℕ,
}
use mathlib.Core.List.{Memᴰ}
use mathlib.Core.List.Memᴰ
use iknos.TruthMaintenance.Graph.{NodeId, Derivation, InRules, here, there}
use iknos.Confidence.{
  Valuation, get_or, combine_body, founded, grounds, worth, contributions, valued,
}
use iknos.Confidence.Laws.{
  Laws, ≼_refl, ≼_trans, ≼_antisym, alternatives_upper, alternatives_least, alternatives_selects,
  body_mono, body_below,
}

pub contains-Memᴰ : (xs : List ℕ) (a : ℕ) → Memᴰ a xs → contains xs a ≡ true
unfolding contains
contains-Memᴰ [] a m = elim m [ ]
contains-Memᴰ (x ∷ xs) a (Memᴰ.head e) = rw e (ground arith)
contains-Memᴰ (x ∷ xs) a (Memᴰ.tail m) = ground (arith, contains-Memᴰ xs a m)

pub Memᴰ-contains : (xs : List ℕ) (a : ℕ) → contains xs a ≡ true → Memᴰ a xs
unfolding contains
Memᴰ-contains [] a h = cc
Memᴰ-contains (x ∷ xs) a h = elim (Bool-cases (x == a)) [
  | inl at ↦ Memᴰ.head (ground arith)
  | inr other ↦ Memᴰ.tail (Memᴰ-contains xs a (ground arith))
]

module _ {V : Type 0} (call : Valuation V) (laws : Laws call.semiring) where
  open call use {graph, supported, base_confidence, strength, semiring, same}

  infix 4 ◌≼◌
  abbrev ◌≼◌ : V → V → Type 0
  a ≼ b = semiring.plus a b ≡ b

  abbrev BelowAll : (NodeId → V) → (NodeId → V) → Type 0
  BelowAll f g = (a : NodeId) → contains supported a ≡ true → f a ≼ g a

  pub Memᴰ-grounds :
      (node : NodeId) (ds : List Derivation) (d : Derivation)
      → Memᴰ d (grounds call node ds)
      → founded call d ≡ true
  unfolding grounds
  Memᴰ-grounds node [] d m = elim m [ ]
  Memᴰ-grounds node (e ∷ ds) d m = elim (Bool-cases (founded call e && e.conclusion == node)) [
    | inl fits ↦
        let listed : Memᴰ d (e ∷ grounds call node ds) = rw fits at m in
        elim (Memᴰ.cases_cons listed) [
          | inl same_one ↦ rw same_one (ground arith)
          | inr later ↦ Memᴰ-grounds node ds d later
        ]
    | inr other ↦ Memᴰ-grounds node ds d (rw other at m)
  ]

  pub grounds-InRules :
      (node : NodeId) (ds : List Derivation) (d : Derivation)
      → Memᴰ d (grounds call node ds)
      → InRules d ds × (d.conclusion ≡ node)
  unfolding grounds
  grounds-InRules node [] d m = elim m [ ]
  grounds-InRules node (e ∷ ds) d m = elim (Bool-cases (founded call e && e.conclusion == node)) [
    | inl fits ↦
        let listed : Memᴰ d (e ∷ grounds call node ds) = rw fits at m in
        elim (Memᴰ.cases_cons listed) [
          | inl same_one ↦ rw same_one (here, ground arith)
          | inr later ↦ let (r, c) = grounds-InRules node ds d later in (there r, c)
        ]
    | inr other ↦ let (r, c) = grounds-InRules node ds d (rw other at m) in (there r, c)
  ]

  pub InRules-grounds :
      (ds : List Derivation) (d : Derivation)
      → InRules d ds
      → founded call d ≡ true
      → Memᴰ d (grounds call d.conclusion ds)
  unfolding grounds
  InRules-grounds [] d r ok = elim r [ ]
  InRules-grounds (e ∷ ds) d here ok = rw (ok, ==_refl e.conclusion) (Memᴰ.head refl)
  InRules-grounds (e ∷ ds) d (there r) ok =
      let rest = InRules-grounds ds d r ok in
      elim (Bool-cases (founded call e && e.conclusion == d.conclusion)) [
        | inl fits ↦ rw fits (Memᴰ.tail rest)
        | inr other ↦ rw other rest
      ]

  pub body-supported :
      (node : NodeId) (d : Derivation)
      → Memᴰ d (grounds call node graph.derivations)
      → (a : NodeId) → contains d.body a ≡ true
      → contains supported a ≡ true
  body-supported node d m a has =
      let f = Memᴰ-grounds node graph.derivations d m in
      all-contains (contains supported) d.body a (ground arith) has

  -- what a contribution is
  pub contributions-cases :
      (f : NodeId → V) (node : NodeId) (v : V)
      → Memᴰ v (contributions call f node)
      → (contains graph.base_facts node ≡ true) × (v ≡ get_or semiring.one (base_confidence node))
        ⊎ ((d : Derivation) × Memᴰ d (grounds call node graph.derivations) × (worth call f d ≡ v))
  unfolding contributions
  contributions-cases f node v m =
      let ds = grounds call node graph.derivations in
      elim (Bool-cases (contains graph.base_facts node)) [
        | inl based ↦
            let listed : Memᴰ v
                (get_or semiring.one (base_confidence node) ∷ map (worth call f) ds) =
              rw based at m in
            elim (Memᴰ.cases_cons listed) [
              | inl e ↦ inl (based, e)
              | inr later ↦ inr (Memᴰ.of_map (worth call f) ds later)
            ]
        | inr free ↦ inr (Memᴰ.of_map (worth call f) ds (rw free at m))
      ]

  pub contributions_base :
      (f : NodeId → V) (node : NodeId)
      → contains graph.base_facts node ≡ true
      → Memᴰ (get_or semiring.one (base_confidence node)) (contributions call f node)
  unfolding contributions
  contributions_base f node based = rw based (Memᴰ.head refl)

  pub contributions_derived :
      (f : NodeId → V) (node : NodeId) (d : Derivation)
      → Memᴰ d (grounds call node graph.derivations)
      → Memᴰ (worth call f d) (contributions call f node)
  unfolding contributions
  contributions_derived f node d m = elim (Bool-cases (contains graph.base_facts node)) [
    | inl based ↦ rw based (Memᴰ.tail (Memᴰ.map (worth call f) m))
    | inr free ↦ rw free (Memᴰ.map (worth call f) m)
  ]

  worth_mono :
      (f g : NodeId → V) (d : Derivation)
      → ((a : NodeId) → contains d.body a ≡ true → f a ≼ g a)
      → worth call f d ≼ worth call g d
  worth_mono f g d h =
      laws.times_mono_right (combine_body semiring (map f (distinct d.body)))
        (combine_body semiring (map g (distinct d.body))) (get_or semiring.one (strength d))
        (body_mono laws f g (distinct d.body) semiring.one semiring.one (≼_refl laws semiring.one)
          (λ a m. h a (sym (contains-distinct d.body a) ∙ contains-Memᴰ (distinct d.body) a m)))

  worth_below :
      (f : NodeId → V) (d : Derivation) (a : NodeId)
      → contains d.body a ≡ true
      → worth call f d ≼ f a
  worth_below f d a has =
      let body = combine_body semiring (map f (distinct d.body)) in
      ≼_trans laws (worth call f d) body (f a)
        (laws.absorbs_right (get_or semiring.one (strength d)) body)
        (body_below laws f (distinct d.body) semiring.one a
          (Memᴰ-contains (distinct d.body) a (contains-distinct d.body a ∙ has)))

  pub valued_mono :
      (f g : NodeId → V) → BelowAll f g → (node : NodeId) → valued call f node ≼ valued call g node
  unfolding valued
  valued_mono f g h node =
      alternatives_least laws (contributions call f node) (valued call g node) λ v m.
        elim (contributions-cases f node v m) [
          | inl (based, e) ↦ rw e (
              alternatives_upper laws (contributions call g node)
                (get_or semiring.one (base_confidence node)) (contributions_base g node based))
          | inr (d, ground_of, e) ↦ rw (← e) (
              ≼_trans laws (worth call f d) (worth call g d) (valued call g node)
                (worth_mono f g d (λ a has. h a (body-supported node d ground_of a has)))
                (alternatives_upper laws (contributions call g node) (worth call g d)
                  (contributions_derived g node d ground_of)))
        ]

  module _ (exact : (a b : V) → (same a b ≡ true) ↔ (a ≡ b)) where
    differ : (a b : V) → same a b ≡ false → a ≢ b
    differ a b n e = let s = (exact a b).1 e in cc

    apart : (a b : V) → a ≢ b → same a b ≡ false
    apart a b n = elim (Bool-cases (same a b)) [ inl s ↦ absurd (n ((exact a b).0 s)) | inr d ↦ d ]

    -- a body whose antecedents did not change is worth the same
    changed :
        (f g : NodeId → V) (d : Derivation)
        → worth call f d ≢ worth call g d
        → BelowAll g f
        → ((a : NodeId) → contains d.body a ≡ true → contains supported a ≡ true)
        → (a : NodeId) × (contains d.body a ≡ true) × (same (f a) (g a) ≡ false)
    changed f g d n up known = elim (Bool-cases (all (λ a. same (f a) (g a)) d.body)) [
      | inl kept ↦
          let equal = λ (a : NodeId) (has : contains d.body a ≡ true).
            (exact (f a) (g a)).0 (all-contains (λ a. same (f a) (g a)) d.body a kept has) in
          absurd (
            n (
              ≼_antisym laws (worth call f d) (worth call g d)
                (worth_mono f g d (λ a has. rw (equal a has) (≼_refl laws (g a))))
                (worth_mono g f d (λ a has. up a (known a has)))))
      | inr moved ↦ all_witness (λ a. same (f a) (g a)) d.body moved
    ]

    -- Where a round from higher degrees improves a node, an antecedent had improved, and it is at
    -- least as strong as the node becomes.
    pub improves :
        (f g : NodeId → V) (node : NodeId)
        → BelowAll g f
        → same (valued call f node) (valued call g node) ≡ false
        → (a : NodeId) × (contains supported a ≡ true)
          × (same (f a) (g a) ≡ false)
          × (valued call f node ≼ f a)
    unfolding valued
    improves f g node up moved =
        let new = differ (valued call f node) (valued call g node) moved in
        let grows = valued_mono g f up node in
        let stays = λ (low : valued call f node ≼ valued call g node).
          new (≼_antisym laws (valued call f node) (valued call g node) low grows) in
        elim (alternatives_selects laws (contributions call f node)) [
          | inl e ↦ absurd (
              stays (
                ap (λ x. semiring.plus x (valued call g node)) e
                ∙ laws.plus_zero (valued call g node)))
          | inr (v, m, e) ↦ elim (contributions-cases f node v m) [
            | inl (based, is) ↦ absurd (
                stays (
                  ap (λ x. semiring.plus x (valued call g node)) (e ∙ is)
                  ∙ alternatives_upper laws (contributions call g node)
                      (get_or semiring.one (base_confidence node))
                      (contributions_base g node based)))
            | inr (d, ground_of, is) ↦
                let known = body-supported node d ground_of in
                let better : worth call f d ≢ worth call g d = λ eq. stays (
                  ap (λ x. semiring.plus x (valued call g node)) (e ∙ sym is ∙ eq)
                  ∙ alternatives_upper laws (contributions call g node) (worth call g d)
                      (contributions_derived g node d ground_of)) in
                let (a, has, moved_a) = changed f g d better up known in
                (
                  a,
                  known a has,
                  moved_a,
                  ap (λ x. semiring.plus x (f a)) (e ∙ sym is) ∙ worth_below f d a has,
                )
          ]
        ]
