-- ===== src/Confidence/Godel.antt =====
-- The Gödel semiring of core/confidence.py: its laws, and what a degree over it means.
use iknos.Prelude.{
  ℕ, zero, suc, ◌≤◌, ◌<◌, ◌≡◌, ◌↔◌, refl, sym, ◌∙◌, inl, inr, Bool, true, false, ◌&&◌, Option, some,
  List, [], ◌∷◌, map, min, unit, arith, contains, contains-distinct, distinct, leb, ◌==◌, ==_iff,
  if◌then◌else◌, Bool-cases,
}
use mathlib.Core.List.{Memᴰ}
use mathlib.Core.List.Memᴰ
use iknos.TruthMaintenance.Graph.{
  NodeId, Derivation, DerivationGraph, InRules, here, there, Supported, fact, derived,
}
use iknos.TruthMaintenance.Graph.Rules.{InRules-split}
use iknos.Confidence.{
  Valuation, get_or, folded, founded, worth, contributions, valued, valuate, godel,
}
use iknos.Confidence.Laws.{Laws, alternatives_upper, alternatives_selects}
use iknos.Confidence.Rounds.{
  contains-Memᴰ, Memᴰ-contains, contributions-cases, contributions_base, contributions_derived,
  body-supported, Memᴰ-grounds, grounds-InRules, InRules-grounds,
}
use iknos.Confidence.Ascent.{after}
use iknos.Confidence.Least.{table, valuate-after}

pub godel-Laws : Laws godel
godel-Laws = record {
  plus_comm = λ a b. omega arith;
  plus_assoc = λ a b c. omega arith;
  plus_selects = λ a b. ground arith;
  plus_zero = λ a. omega arith;
  absorbs_left = λ a b. omega arith;
  absorbs_right = λ a b. omega arith;
  times_mono_left = λ a b c h. omega arith;
  times_mono_right = λ a b c h. omega arith;
}

-- A call over the Gödel semiring, the default.
abbrev pub godel_call :
    DerivationGraph → List NodeId → (NodeId → Option ℕ) → (Derivation → Option ℕ) → Valuation ℕ
godel_call graph supported base_confidence strength = record {
  graph = graph;
  supported = supported;
  base_confidence = base_confidence;
  strength = strength;
  semiring = godel;
  same = ◌==◌;
}

folded-min :
    {A : Type 0} (f : A → ℕ) (xs : List A) (acc t : ℕ)
    → (t ≤ folded min acc (map f xs)) ↔ ((t ≤ acc) × ((x : A) → Memᴰ x xs → t ≤ f x))
folded-min f [] acc t = (λ h. (h, λ x m. elim m [ ]), λ h. h.0)
folded-min f (y ∷ xs) acc t =
    let rest = folded-min f xs (min acc (f y)) t in
    (
      λ h.
          let (low, all) = rest.0 h in
          (
            omega arith,
            λ x m. elim (Memᴰ.cases_cons {l = xs} m) [
              | inl e ↦ rw e (omega arith)
              | inr later ↦ all x later
            ],
          ),
      λ h.
          let here_too = h.1 y (Memᴰ.head refl) in rest.1 (omega arith, λ x m. h.1 x (Memᴰ.tail m)),
    )

-- `d in ds` of the rules that a degree of `t` may pass
abbrev pub carries : (Derivation → Bool) → List Derivation → List Derivation
carries p [] = []
carries p (d ∷ ds) = let rest = carries p ds in if p d then d ∷ rest else rest

carries-InRules :
    (p : Derivation → Bool) (ds : List Derivation) (d : Derivation)
    → InRules d (carries p ds) ↔ (InRules d ds × (p d ≡ true))
carries-InRules p [] d = (λ r. elim r [ ], λ (r, ok). elim r [ ])
carries-InRules p (e ∷ ds) d =
    let (out, into) = carries-InRules p ds d in
    elim (Bool-cases (p e)) [
      | inl passes ↦ (
        λ r.
            let listed : InRules d (e ∷ carries p ds) = rw passes at r in
            elim (InRules-split listed) [
              | inl at ↦ (rw at here, rw at at passes)
              | inr later ↦ let (rest, ok) = out later in (there rest, ok)
            ],
        λ (r, ok).
            rw passes (elim (InRules-split r) [
              | inl at ↦ rw at here
              | inr later ↦ there (into (later, ok))
            ]),
      )
      | inr stops ↦ (
        λ r. let (rest, ok) = out (rw stops at r) in (there rest, ok),
        λ (r, ok). rw stops (elim (InRules-split r) [
          | inl at ↦ absurd (let no : p d ≡ false = rw at at stops in cc)
          | inr later ↦ into (later, ok)
        ]),
      )
    ]

module _ (graph : DerivationGraph) (supported : List NodeId) (base_confidence : NodeId → Option ℕ)
    (strength : Derivation → Option ℕ) where
  abbrev call : Valuation ℕ
  call = godel_call graph supported base_confidence strength

  -- the base facts and the rules that stay when all below `t` is cut off
  abbrev pub strong_fact : ℕ → NodeId → Bool
  strong_fact t n =
      contains supported n && contains graph.base_facts n && leb t (get_or unit (base_confidence n))

  abbrev pub strong_rule : ℕ → Derivation → Bool
  strong_rule t d = founded call d && leb t (get_or unit (strength d))

  abbrev pub Carried : ℕ → NodeId → Type 0
  Carried t = Supported (strong_fact t) (carries (strong_rule t) graph.derivations)

  exact : (a b : ℕ) → ((a == b) ≡ true) ↔ (a ≡ b)
  exact = ==_iff

  rounds_sound :
      (t k : ℕ) (n : NodeId)
      → 0 < t
      → contains supported n ≡ true
      → t ≤ after call godel-Laws exact k n
      → Carried t n
  unfolding after valued
  rounds_sound t zero n pos known h = absurd (omega arith)
  rounds_sound t (suc k) n pos known h =
      let f = after call godel-Laws exact k in
      elim (alternatives_selects godel-Laws (contributions call f n)) [
        | inl none_at_all ↦ absurd (omega arith)
        | inr (v, m, e) ↦ elim (contributions-cases call godel-Laws f n v m) [
          | inl (based, is) ↦
              let high : t ≤ get_or unit (base_confidence n) = omega arith in fact (ground arith)
          | inr (d, ground_of, is) ↦
              let (rule, concludes) =
                grounds-InRules call godel-Laws n graph.derivations d ground_of in
              let ok = Memᴰ-grounds call godel-Laws n graph.derivations d ground_of in
              let high : t ≤ worth call f d = omega arith in
              let parts = (folded-min f (distinct d.body) unit t).0 (omega arith) in
              let strong : strong_rule t d ≡ true =
                let s : t ≤ get_or unit (strength d) = omega arith in ground arith in
              rw (← concludes) (
                derived d ((carries-InRules (strong_rule t) graph.derivations d).1 (rule, strong))
                  λ a has.
                    rounds_sound t k a pos (body-supported call godel-Laws n d ground_of a has) (
                      parts.1 a
                        (Memᴰ-contains (distinct d.body) a (contains-distinct d.body a ∙ has))))
        ]
      ]

  module _ (conf : NodeId → ℕ)
      (fixed : (n : NodeId) → contains supported n ≡ true → conf n ≡ valued call conf n) (t : ℕ)
      (low : t ≤ unit) where
    worth_high :
        (d : Derivation)
        → t ≤ get_or unit (strength d)
        → ((a : NodeId) → contains d.body a ≡ true → t ≤ conf a)
        → t ≤ worth call conf d
    worth_high d strong high =
        let body = (folded-min conf (distinct d.body) unit t).1 (
          low,
          λ a m. high a (sym (contains-distinct d.body a) ∙ contains-Memᴰ (distinct d.body) a m),
        ) in
        omega arith

    Carried-high : (n : NodeId) → Carried t n → t ≤ conf n
    unfolding valued
    Carried-high n (fact e) =
        let up =
          alternatives_upper godel-Laws (contributions call conf n)
            (get_or unit (base_confidence n))
            (contributions_base call godel-Laws conf n (ground arith)) in
        let same = fixed n (ground arith) in
        let strong : t ≤ get_or unit (base_confidence n) = ground arith in omega arith
    Carried-high n (derived d r body) =
        let (rule, ok) = (carries-InRules (strong_rule t) graph.derivations d).0 r in
        let ground_of = InRules-grounds call godel-Laws graph.derivations d rule (ground arith) in
        let high = worth_high d (ground arith) (λ a has. Carried-high a (body a has)) in
        let up =
          alternatives_upper godel-Laws (contributions call conf d.conclusion) (worth call conf d)
            (contributions_derived call godel-Laws conf d.conclusion d ground_of) in
        let same = fixed d.conclusion (ground arith) in omega arith

  -- Over the Gödel semiring `valuate` gives a supported node a degree of at least `t`, above zero and
  -- up to one, exactly if the node is well-founded by the facts and rules of at least `t`: the
  -- degree is that of the weakest link of the best derivation.
  pub valuate-Carried :
      (t : ℕ) (n : NodeId)
      → 0 < t
      → t ≤ unit
      → contains supported n ≡ true
      → (conf : NodeId → ℕ) × (valuate call ≡ some (table call conf)) × ((t ≤ conf n) ↔ Carried t n)
  unfolding after
  valuate-Carried t n pos low known =
      let (k, e, settled) = valuate-after call godel-Laws exact in
      let conf = after call godel-Laws exact k in
      (
        conf,
        e,
        (rounds_sound t k n pos known, Carried-high conf (λ a m. sym (settled a m)) t low n),
      )
