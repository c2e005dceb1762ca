-- ===== src/ComposedLoop/Region.antt =====
-- The unstable region of a result of `stabilize`.
use iknos.Prelude.{
  ℕ, zero, suc, ◌<◌, ◌≡◌, ◌≢◌, refl, ◌↔◌, true, some, List, [], ◌∷◌, drop, length, arith,
}
use iknos.ComposedLoop.{StabilizationResult, Hashable, stabilize, is_finding, unstable_region}
use iknos.ComposedLoop.Outcome.{Ends, converges, oscillates, diverges, orbit, length-orbit, Ends-of}

drop_nonempty {ℓ} : {A : Type ℓ} (n : ℕ) (xs : List A) → n < length xs → drop n xs ≢ []
drop_nonempty zero [] h = absurd (omega arith)
drop_nonempty zero (x ∷ xs) h = λ e. cc
drop_nonempty (suc n) [] h = absurd (omega arith)
drop_nonempty (suc n) (x ∷ xs) h = drop_nonempty n xs (omega arith)

module _ {ℓ κ} {S : Type ℓ} {K : Type κ} (keys : Hashable K) (step : S → S) (key : S → K) where
  Ends-region :
      (s : S) (bound : ℕ) (r : StabilizationResult S)
      → Ends keys step key s bound r
      → (is_finding r ≡ true) ↔ (unstable_region r ≢ [])
  unfolding is_finding unstable_region
  Ends-region s bound _ (converges n less fresh same) = (λ f. cc, λ region. absurd (region refl))
  Ends-region s bound _ (oscillates n start less early fresh same) = (
    λ f.
        drop_nonempty start (orbit keys step key (suc n) s)
          (omega (arith, length-orbit keys step key (suc n) s)),
    λ region. refl,
  )
  Ends-region s bound _ (diverges fresh) = (
    λ f.
        drop_nonempty 0 (orbit keys step key (suc bound) s)
          (omega (arith, length-orbit keys step key (suc bound) s)),
    λ region. refl,
  )

  -- A result of `stabilize` is a finding exactly if it has states to surface.
  pub is_finding-iff-region :
      (s : S) (bound : ℕ) (r : StabilizationResult S)
      → stabilize keys step key s bound ≡ some r
      → (is_finding r ≡ true) ↔ (unstable_region r ≢ [])
  is_finding-iff-region s bound r e = Ends-region s bound r (Ends-of keys step key s bound r e)
