-- ===== src/TruthMaintenance/Graph/Rules.antt =====
-- Sets of rules under the equality of rules.
use iknos.Prelude.{
  ◌≡◌, refl, sym, ◌∙◌, ◌↔◌, ◌⊎◌, Bool, true, ◌||◌, inl, inr, List, [], ◌∷◌, ◌++◌, arith, contains,
  all-contains, all_intro, Bool-cases, Bool_ext,
}
use iknos.TruthMaintenance.Graph.{
  NodeId, Derivation, InRules, here, there, same_deriv, has_deriv, Supported, fact, derived,
}

-- Two rules are equal exactly if they have one conclusion and the same antecedents.
pub same_deriv_iff :
    (d e : Derivation)
    → (same_deriv d e ≡ true)
      ↔ ((d.conclusion ≡ e.conclusion) × ((a : NodeId) → contains d.body a ≡ contains e.body a))
unfolding same_deriv
same_deriv_iff d e = (
  λ h. (
    ground arith,
    λ a.
        Bool_ext _ _ (λ m. all-contains (contains e.body) d.body a (ground arith) m)
          (λ m. all-contains (contains d.body) e.body a (ground arith) m),
  ),
  λ h.
      let (one, same) = h in
      let fwd = all_intro (contains e.body) d.body (λ a m. sym (same a) ∙ m) in
      let bwd = all_intro (contains d.body) e.body (λ a m. same a ∙ m) in ground arith,
)

pub same_deriv_refl : (d : Derivation) → same_deriv d d ≡ true
same_deriv_refl d = (same_deriv_iff d d).1 (refl, λ a. refl)

pub same_deriv_sym : (d e : Derivation) → same_deriv d e ≡ true → same_deriv e d ≡ true
same_deriv_sym d e h =
    let (one, same) = (same_deriv_iff d e).0 h in
    (same_deriv_iff e d).1 (sym one, λ a. sym (same a))

pub same_deriv_trans :
    (c d e : Derivation) → same_deriv c d ≡ true → same_deriv d e ≡ true → same_deriv c e ≡ true
same_deriv_trans c d e h k =
    let (one, same) = (same_deriv_iff c d).0 h in
    let (one', same') = (same_deriv_iff d e).0 k in
    (same_deriv_iff c e).1 (one ∙ one', λ a. same a ∙ same' a)

pub has_deriv_intro :
    (ds : List Derivation) (d e : Derivation)
    → InRules e ds
    → same_deriv e d ≡ true
    → has_deriv ds d ≡ true
unfolding has_deriv
has_deriv_intro [] d e m h = elim m [ ]
has_deriv_intro (c ∷ ds) d e here h = rw h
has_deriv_intro (c ∷ ds) d e (there m) h = ground (arith, has_deriv_intro ds d e m h)

pub has_deriv_witness :
    (ds : List Derivation) (d : Derivation)
    → has_deriv ds d ≡ true
    → (e : Derivation) × InRules e ds × (same_deriv e d ≡ true)
unfolding has_deriv
has_deriv_witness [] d h = cc
has_deriv_witness (c ∷ ds) d h = elim (Bool-cases (same_deriv c d)) [
  | inl same ↦ (c, here, same)
  | inr other ↦ let (e, m, same) = has_deriv_witness ds d (ground arith) in (e, there m, same)
]

-- membership respects the equality of rules
pub has_deriv_cong :
    (ds : List Derivation) (d e : Derivation)
    → same_deriv d e ≡ true
    → has_deriv ds d ≡ has_deriv ds e
has_deriv_cong ds d e h = Bool_ext _ _ (go d e h) (go e d (same_deriv_sym d e h))
  where
    go : (x y : Derivation) → same_deriv x y ≡ true → has_deriv ds x ≡ true → has_deriv ds y ≡ true
    go x y k m =
        let (c, at, same) = has_deriv_witness ds x m in
        has_deriv_intro ds y c at (same_deriv_trans c x y same k)

pub has_deriv-append :
    (ds es : List Derivation) (d : Derivation)
    → has_deriv (ds ++ es) d ≡ (has_deriv ds d || has_deriv es d)
unfolding has_deriv
has_deriv-append [] es d = refl
has_deriv-append (c ∷ ds) es d = ground (arith, has_deriv-append ds es d)

-- Graphs with the same base facts and the same set of rules support the same nodes.
pub Supported-cong :
    (b b' : NodeId → Bool) (ds ds' : List Derivation) {x : NodeId}
    → ((n : NodeId) → b n ≡ b' n)
    → ((d : Derivation) → has_deriv ds d ≡ has_deriv ds' d)
    → Supported b ds x
    → Supported b' ds' x
Supported-cong b b' ds ds' f g (fact h) = fact (sym (f _) ∙ h)
Supported-cong b b' ds ds' f g (derived d m body) =
    let known = has_deriv_intro ds d d m (same_deriv_refl d) in
    let (e, at, same) = has_deriv_witness ds' d (sym (g d) ∙ known) in
    let (one, bodies) = (same_deriv_iff e d).0 same in
    let parts = λ (a : NodeId) (h : contains e.body a ≡ true).
      Supported-cong b b' ds ds' f g (body a (sym (bodies a) ∙ h)) in
    rw one at (derived e at parts)

pub InRules-split :
    {d e : Derivation} {ds : List Derivation} → InRules d (e ∷ ds) → (e ≡ d) ⊎ InRules d ds
InRules-split here = inl refl
InRules-split (there r) = inr r
