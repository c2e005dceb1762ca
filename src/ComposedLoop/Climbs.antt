-- ===== src/ComposedLoop/Climbs.antt =====
-- `stabilize` of core/composed_loop.py on a step that only climbs towards a limit.
use iknos.Prelude.{
  ℕ, zero, suc, ◌+◌, ◌≤◌, ◌<◌, ◌≡◌, refl, sym, ap, ◌∙◌, ◌⊎◌, inl, inr, some, arith, leb, Bool-cases,
}
use iknos.ComposedLoop.{converged, StabilizationResult, Hashable, stabilize}
use iknos.ComposedLoop.Outcome.{iterate, Fresh, Ends, converges, oscillates, diverges, Ends-of}

module _ {ℓ κ} {S : Type ℓ} {K : Type κ} (keys : Hashable K) (step : S → S) (key : S → K)
    (injective : (a b : S) → key a ≡ key b → a ≡ b) (height : S → ℕ) (s : S)
    (climbs : (n : ℕ)
      → (iterate keys step key (suc n) s ≡ iterate keys step key n s)
        ⊎ (height (iterate keys step key n s) < height (iterate keys step key (suc n) s))) where
  abbrev at : ℕ → S
  at n = iterate keys step key n s

  -- where the states up to `to` are all different, the height grows at each step
  Fresh-height :
      (from to : ℕ)
      → from ≤ to
      → Fresh keys step key s (suc to)
      → height (at from) + to ≤ height (at to) + from
  Fresh-height from zero less fresh = let e : from ≡ 0 = omega arith in rw e (omega arith)
  Fresh-height from (suc to) less fresh = elim (Bool-cases (leb from to)) [
    | inl before ↦
        let rest =
          Fresh-height from to (ground arith) (λ a b lt below. fresh a b lt (omega arith)) in
        elim (climbs to) [
          | inl stays ↦ absurd (fresh to (suc to) (omega arith) (omega arith) (ap key (sym stays)))
          | inr rises ↦ omega arith
        ]
    | inr here ↦ let e : from ≡ suc to = ground arith in rw e (omega arith)
  ]

  Ends-climbs :
      (bound limit : ℕ) (r : StabilizationResult S)
      → ((n : ℕ) → height (at n) ≤ limit)
      → limit < bound
      → Ends keys step key s bound r
      → r.status ≡ converged
  Ends-climbs bound limit _ low more (converges n below fresh e) = refl
  Ends-climbs bound limit _ low more (oscillates n start below first fresh e) =
      absurd (elim (climbs n) [
        | inl stays ↦ fresh start n first (omega arith) (sym e ∙ ap key stays)
        | inr rises ↦
            let back = ap height (injective (at (suc n)) (at start) e) in
            let grown = Fresh-height start n (omega arith) fresh in omega arith
      ])
  Ends-climbs bound limit _ low more (diverges fresh) =
      absurd
        (let grown = Fresh-height 0 bound (omega arith) fresh in let top = low bound in omega arith)

  -- A step that leaves a state alone or raises it, below a limit, converges within any bound that
  -- is above the limit.
  pub stabilize_climbs :
      (bound limit : ℕ) (r : StabilizationResult S)
      → ((n : ℕ) → height (at n) ≤ limit)
      → limit < bound
      → stabilize keys step key s bound ≡ some r
      → r.status ≡ converged
  stabilize_climbs bound limit r low more e =
      Ends-climbs bound limit r low more (Ends-of keys step key s bound r e)
