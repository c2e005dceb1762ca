-- ===== src/Epistemic/Tests.antt =====
-- The theorems on reasons and faithfulness at concrete verdicts.
use iknos.Prelude.{
  ℕ, ◌*◌, ◌≤◌, ◌≡◌, refl, ◌↔◌, ◌⊎◌, true, false, not, ◌&&◌, ◌||◌, none, some, List, [], ◌∷◌, arith,
  contains, Distinct, pos, unit,
}
use iknos.Epistemic.{
  entailed, faithfulness_from_verdict, low, high, provisional_reasons_for,
  reassess_faithfulness_reasons, on_faithfulness_axis, assert_not_quarantined, combine_faithfulness,
}
use iknos.Epistemic.Reasons.{reassess_faithfulness_reasons_lem, assert_not_quarantined_iff}
use iknos.Epistemic.Faithfulness.{fine, Admitted, Admitted-combined, combine_faithfulness-le}

-- an unassessed twin of unstable polarity is verified
reassess_faithfulness_reasons_lem_example :
    (rs : List ℕ) × (reassess_faithfulness_reasons (2 ∷ 1 ∷ []) (some (pos 700000)) 500000
      ≡ some rs)
    × ((r : ℕ)
        → contains rs r
          ≡ ((not (on_faithfulness_axis r) && contains (2 ∷ 1 ∷ []) r) || contains [] r))
    × Distinct rs
unfolding provisional_reasons_for
reassess_faithfulness_reasons_lem_example =
    reassess_faithfulness_reasons_lem (2 ∷ 1 ∷ []) (some (pos 700000)) 500000 [] refl

assert_not_quarantined_iff_example :
    (assert_not_quarantined (4 ∷ []) high ≡ none)
    ↔ ((high ≡ low) ⊎ ((r : ℕ) → contains (4 ∷ []) r ≡ false))
assert_not_quarantined_iff_example = assert_not_quarantined_iff (4 ∷ []) high

-- a clean span that entails the proposition, in two samples of three
abbrev two_thirds : ℕ
two_thirds = 666666

Admitted-combined_example : Admitted two_thirds [] ↔ (
    (entailed ≡ entailed)
    × (true ≡ true)
    × (500000 * fine ≤ two_thirds * fine)
    × ((r : ℕ) → contains [] r ≡ false))
unfolding combine_faithfulness faithfulness_from_verdict
Admitted-combined_example =
    Admitted-combined entailed true true (pos two_thirds) (pos 1000000) pos (two_thirds * fine)
      two_thirds [] refl (omega arith) (omega arith)

combine_faithfulness-le_example :
    (combine_faithfulness (pos 1000000) (pos 666666) (pos 800000) (λ a. pos 600000)
      ≡ some (1000000 * 600000 * 800000))
    × (1000000 * 600000 * 800000 ≤ 1000000 * unit * unit)
    × (1000000 * 600000 * 800000 ≤ unit * 666666 * unit)
    × (1000000 * 600000 * 800000 ≤ unit * unit * 800000)
combine_faithfulness-le_example =
    combine_faithfulness-le (pos 1000000) (pos 666666) (pos 800000) (λ a. pos 600000) 1000000 666666
      800000 refl refl refl 600000 refl (omega arith)
