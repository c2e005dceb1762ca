-- ===== src/Qbaf/DfQuad.antt =====
-- The combination of DF-QuAD, `_df_quad_combine` of core/qbaf.py, on exact decimals: scores and
-- aggregates on [0, 1] in millionths, and the result in units of 10 ^ -12.
use iknos.Prelude.{
  ℕ, zero, suc, ap, false, ◌+◌, ◌-◌, ◌*◌, ◌≤◌, ◌<◌, ◌≡◌, ◌⊎◌, refl, inl, inr, arith, ltb,
  if◌then◌else◌, Bool-cases, unit, mul_le_left, mul_le_right,
}

-- The subtractions do not stop at zero: a difference is taken of the larger number, and a product
-- with a difference on [0, 1] is no more than the score.
unfoldable pub df_quad_combine : (base support attack : ℕ) → ℕ
df_quad_combine base support attack =
    if ltb attack support
    then base * unit + (unit - base) * (support - attack)
    else if ltb support attack
    then base * unit - base * (attack - support)
    else base * unit

-- What the combination of a score with a larger aggregate does: it moves the score strictly towards
-- the end that the aggregate argues for, unless it is there, where it stays.
abbrev pub Raised : ℕ → ℕ → Type 0
Raised base combined =
    ((base < unit) × (base * unit < combined)) ⊎ ((base ≡ unit) × (combined ≡ unit * unit))

abbrev pub Lowered : ℕ → ℕ → Type 0
Lowered base combined = ((0 < base) × (combined < base * unit)) ⊎ ((base ≡ 0) × (combined ≡ 0))

Raised-by : (base gap : ℕ) → base ≤ unit → 0 < gap → Raised base (base * unit + (unit - base) * gap)
Raised-by base gap h pos = elim (Bool-cases (ltb base unit)) [
  | inl room ↦
      let some_room : 0 < unit - base = ground arith in
      let step = mul_le_left 1 (unit - base) gap some_room in inl (ground arith, omega arith)
  | inr full ↦
      let top : base ≡ unit = ground arith in
      let none_left = ap (λ x. (unit - x) * gap) top in inr (top, omega arith)
]

Lowered-by : (base gap : ℕ) → 0 < gap → gap ≤ unit → Lowered base (base * unit - base * gap)
Lowered-by zero gap pos h = inr (refl, omega arith)
Lowered-by (suc base) gap pos h =
    let step = mul_le_left 1 (suc base) gap (omega arith) in
    let some_left = mul_le_right gap unit (suc base) h in inl (omega arith, omega arith)

-- DF-QuAD stays on [0, 1]. It keeps the score at a tie of support and attack, raises it strictly if
-- the support is larger and lowers it strictly if the attack is, short of the end of [0, 1], where
-- it stays. Taking the score and the sides for their opposites gives the opposite result.
pub df_quad_combine_lem :
    (base support attack : ℕ)
    → base ≤ unit
    → support ≤ unit
    → attack ≤ unit
    → (df_quad_combine base support attack ≤ unit * unit)
      × (((support ≡ attack) × (df_quad_combine base support attack ≡ base * unit))
          ⊎ (((attack < support) × Raised base (df_quad_combine base support attack))
              ⊎ ((support < attack) × Lowered base (df_quad_combine base support attack))))
      × (df_quad_combine (unit - base) attack support + df_quad_combine base support attack
          ≡ unit * unit)
unfolding df_quad_combine
df_quad_combine_lem base s a hb hs ha =
    let up = mul_le_right (s - a) unit (unit - base) (omega arith) in
    let down = mul_le_right (a - s) unit base (omega arith) in
    let back : (unit - base) + base ≡ unit = omega arith in
    let whole = ap (λ x. x * unit) back in
    let rest_up = ap (λ x. x * (s - a)) back in
    let other : unit - (unit - base) ≡ base = omega arith in
    elim (Bool-cases (ltb a s)) [
      | inl raised ↦
          let not_lowered : ltb s a ≡ false = ground arith in
          rw (raised, not_lowered)
            (
              omega arith,
              inr (inl (ground arith, Raised-by base (s - a) hb (ground arith))),
              omega arith,
            )
      | inr not_raised ↦ elim (Bool-cases (ltb s a)) [
        | inl lowered ↦
            rw (not_raised, lowered, other)
              (
                omega arith,
                inr (inr (ground arith, Lowered-by base (a - s) (ground arith) (omega arith))),
                omega arith,
              )
        | inr tie ↦ rw (not_raised, tie) (omega arith, inl (ground arith, refl), omega arith)
      ]
    ]
