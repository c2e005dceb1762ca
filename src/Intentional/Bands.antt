-- ===== src/Intentional/Bands.antt =====
-- The bands of an acceptability cover the unit interval, and keep its order.
use iknos.Prelude.{
  ℕ, ◌≤◌, ◌<◌, ◌≡◌, ◌⊎◌, ◌+◌, ◌*◌, inl, inr, some, arith, leb, Bool-cases, pos, unit,
}
use iknos.Intentional.{
  AcceptabilityBand, band_false, band_implausible, band_plausible, band_true, first_band, band,
}

-- the quarter that a band stands for
abbrev pub quarter : AcceptabilityBand → ℕ
quarter band_false = 0
quarter band_implausible = 1
quarter band_plausible = 2
quarter band_true = 3

-- Every acceptability on [0, 1] has a band, that of the quarter of the interval that it is in, where
-- each quarter owns its lower end and the last one also owns one.
pub band-quarter :
    (x : ℕ)
    → x ≤ unit
    → (b : AcceptabilityBand) × (band (pos x) ≡ some b)
      × (quarter b * 250000 ≤ x)
      × ((x < (quarter b + 1) * 250000) ⊎ (x ≡ unit))
unfolding band first_band
band-quarter x h = elim (Bool-cases (leb 750000 x)) [
  | inl top ↦ (band_true, ground arith, ground arith, ground arith)
  | inr below ↦ elim (Bool-cases (leb 500000 x)) [
    | inl above ↦ (band_plausible, ground arith, ground arith, ground arith)
    | inr under ↦ elim (Bool-cases (leb 250000 x)) [
      | inl some_way ↦ (band_implausible, ground arith, ground arith, ground arith)
      | inr least ↦ (band_false, ground arith, ground arith, ground arith)
    ]
  ]
]
