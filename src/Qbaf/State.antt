-- ===== src/Qbaf/State.antt =====
-- `classify_state` of core/qbaf.py against the bar of the banding policy.
use iknos.Prelude.{ℕ, ◌≤◌, ◌<◌, ◌≡◌, refl, ◌↔◌, Bool, true, false, some, arith, leb, pos, unit}
use iknos.Intentional.{HypothesisState, supported, unsupported, refuted, first_band}
use iknos.Qbaf.{classify_state}

-- the state that the bar and the comparison give
abbrev state_at : Bool → Bool → HypothesisState
state_at true out_argued = supported
state_at false true = refuted
state_at false false = unsupported

state_at-supported : (b o : Bool) → (state_at b o ≡ supported) ↔ (b ≡ true)
state_at-supported true o = (λ e. refl, λ e. refl)
state_at-supported false true = (λ e. cc, λ e. cc)
state_at-supported false false = (λ e. cc, λ e. cc)

state_at-refuted : (b o : Bool) → (state_at b o ≡ refuted) ↔ ((b ≡ false) × (o ≡ true))
state_at-refuted true o = (λ e. cc, λ e. cc)
state_at-refuted false true = (λ e. (refl, refl), λ e. refl)
state_at-refuted false false = (λ e. cc, λ e. cc)

classify_lem :
    (x : ℕ) (o : Bool) → x ≤ unit → classify_state (pos x) o ≡ some (state_at (leb 500000 x) o)
unfolding classify_state first_band
classify_lem x true h = ground arith
classify_lem x false h = ground arith

-- An acceptability on [0, 1] gives a state: supported exactly from one half on, and refuted
-- exactly below one half when the attack outweighs the support.
pub classify_state_iff :
    (x : ℕ) (out_argued : Bool)
    → x ≤ unit
    → (s : HypothesisState) × (classify_state (pos x) out_argued ≡ some s)
      × ((s ≡ supported) ↔ (500000 ≤ x))
      × ((s ≡ refuted) ↔ ((x < 500000) × (out_argued ≡ true)))
classify_state_iff x o h =
    let of_supported = state_at-supported (leb 500000 x) o in
    let of_refuted = state_at-refuted (leb 500000 x) o in
    (
      state_at (leb 500000 x) o,
      classify_lem x o h,
      (λ e. let at = of_supported.0 e in ground arith, λ k. of_supported.1 (ground arith)),
      (
        λ e. let (below, why) = of_refuted.0 e in (ground arith, why),
        λ k. of_refuted.1 (ground (arith, k.0), k.1),
      ),
    )
