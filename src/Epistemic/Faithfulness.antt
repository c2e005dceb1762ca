-- ===== src/Epistemic/Faithfulness.antt =====
-- Faithfulness: which verdicts a high-stakes move may rest on, and that no factor is rescued.
use iknos.Prelude.{
  mul_le_left, mul_le_right, ℕ, ◌*◌, ◌≤◌, ◌≡◌, ◌≢◌, if◌then◌else◌, refl, ◌↔◌, inl, inr, Bool, true,
  false, none, some, List, [], ◌∷◌, contains, arith, Option-cases, Bool-cases, some_inv, sym, ◌∙◌,
  ◌<◌, leb, ltb, suc, ℤ, pos, negsuc, unit, on_unit,
}
use iknos.Epistemic.Reasons.{contains-merge, assert_not_quarantined_iff}
use iknos.Epistemic.{
  Entailment, entailed, neutral, contradicted, high, provisional_threshold_for,
  provisional_reasons_for, merge_provisional_reasons, with_faithfulness_reason, low,
  faithfulness_from_verdict, assert_not_quarantined, combine_faithfulness,
}

-- a millionth of the unit in which a combined faithfulness is counted
abbrev pub fine : ℕ
fine = unit * unit

-- A proposition that is scored with this faithfulness, in millionths, beside other reasons passes
-- the gate at high stakes.
abbrev pub Admitted : ℕ → List ℕ → Type 0
Admitted faithfulness others =
    (rs : List ℕ) × (with_faithfulness_reason (some (pos faithfulness)) others ≡ some rs)
    × (assert_not_quarantined rs high ≡ none)

high_low : high ≢ low
high_low e = cc

-- the reasons that the score gives
abbrev fresh_reasons : ℕ → List ℕ
fresh_reasons f = if ltb f (provisional_threshold_for high) then 0 ∷ [] else []

with_faithfulness_reason-merge :
    (f : ℕ) (others : List ℕ)
    → f ≤ unit
    → with_faithfulness_reason (some (pos f)) others
      ≡ some (merge_provisional_reasons (others ∷ fresh_reasons f ∷ []))
unfolding with_faithfulness_reason provisional_reasons_for
with_faithfulness_reason-merge f others h =
    let on : leb f unit ≡ true = ground arith in rw (on, with_faithfulness_reason) refl

Admitted-iff :
    (f : ℕ) (others : List ℕ)
    → f ≤ unit
    → Admitted f others
      ↔ ((provisional_threshold_for high ≤ f) × ((r : ℕ) → contains others r ≡ false))
unfolding contains
Admitted-iff f others h =
    let merged = merge_provisional_reasons (others ∷ fresh_reasons f ∷ []) in
    let gate = assert_not_quarantined_iff merged high in
    let scored = with_faithfulness_reason-merge f others h in
    (
      λ (rs, e, passes).
          let same : rs ≡ merged = some_inv (sym e ∙ scored) in
          elim (gate.0 (rw same at passes)) [
            | inl is_low_stakes ↦ absurd (high_low is_low_stakes)
            | inr empty ↦ (
              elim (Bool-cases (ltb f (provisional_threshold_for high))) [
                | inl short ↦
                    let none_at = empty 0 in
                    let joined = contains-merge others (fresh_reasons f) 0 in ground arith
                | inr enough ↦ ground arith
              ],
              λ r.
                  let none_at = empty r in
                  let joined = contains-merge others (fresh_reasons f) r in ground arith,
            )
          ],
      λ (enough, empty). (
        merged,
        scored,
        gate.1 (
            inr (λ r.
              let none_at = empty r in
              let joined = contains-merge others (fresh_reasons f) r in ground arith)),
      ),
    )

on_unit_le : (x : ℤ) (n : ℕ) → on_unit x ≡ some n → n ≤ unit
on_unit_le (pos k) n e = ground arith
on_unit_le (negsuc k) n e = cc

combined_le :
    (v : ℕ) (agreement quality : ℤ) (curve : ℕ → ℤ) (product : ℕ)
    → combine_faithfulness (pos v) agreement quality curve ≡ some product
    → (v ≤ unit) × (product ≤ v * fine)
unfolding combine_faithfulness
combined_le v agreement quality curve product e = elim (Option-cases (on_unit (pos v))) [
  | inl off ↦ absurd (let h = rw off at e in cc)
  | inr (v', on_v) ↦ elim (Option-cases (on_unit agreement)) [
    | inl off ↦ absurd (let h = rw (on_v, off) at e in cc)
    | inr (a, on_a) ↦ elim (Option-cases (on_unit (curve a))) [
      | inl off ↦ absurd (let h = rw (on_v, on_a, off) at e in cc)
      | inr (c, on_c) ↦ elim (Option-cases (on_unit quality)) [
        | inl off ↦ absurd (let h = rw (on_v, on_a, on_c, off) at e in cc)
        | inr (q, on_q) ↦
            let made : v' * c * q ≡ product = some_inv (rw (on_v, on_a, on_c, on_q) at e) in
            let v_le = on_unit_le (pos v) v' on_v in
            let same : v ≡ v' = ground arith in
            let c_le = on_unit_le (curve a) c on_c in
            let q_le = on_unit_le quality q on_q in
            let left = mul_le_right c unit v' c_le in
            let both = mul_le_left (v' * c) (v' * unit) q left in
            let last = mul_le_right q unit (v' * unit) q_le in (rw same v_le, rw same (omega arith))
      ]
    ]
  ]
]

high_verdict :
    (e : Entailment) (p m : Bool)
    → provisional_threshold_for high ≤ faithfulness_from_verdict e p m
    → (e ≡ entailed) × (p ≡ true)
unfolding faithfulness_from_verdict
high_verdict entailed true m h = (refl, refl)
high_verdict entailed false true h = absurd (omega arith)
high_verdict entailed false false h = absurd (omega arith)
high_verdict neutral true true h = absurd (omega arith)
high_verdict neutral true false h = absurd (omega arith)
high_verdict neutral false true h = absurd (omega arith)
high_verdict neutral false false h = absurd (omega arith)
high_verdict contradicted p m h = absurd (omega arith)

-- A proposition is scored by its verdict, combined with its agreement and the parse quality, and the
-- score is read in millionths, rounded down. It passes the gate at high stakes exactly if the span
-- entails it, its polarity was preserved, the combined score is at least one half, and no other
-- provisional reason is held against it.
pub Admitted-combined :
    (e : Entailment) (p m : Bool) (agreement quality : ℤ) (curve : ℕ → ℤ) (product f : ℕ)
    (others : List ℕ)
    → combine_faithfulness (pos (faithfulness_from_verdict e p m)) agreement quality curve
      ≡ some product
    → f * fine ≤ product
    → product < suc f * fine
    → Admitted f others ↔ (
        (e ≡ entailed)
        × (p ≡ true)
        × (500000 * fine ≤ product)
        × ((r : ℕ) → contains others r ≡ false))
Admitted-combined e p m agreement quality curve product f others made low_end high_end =
    let v = faithfulness_from_verdict e p m in
    let (v_le, below) = combined_le v agreement quality curve product made in
    let f_le : f ≤ v = omega arith in
    let gate = Admitted-iff f others (omega arith) in
    (
      λ h.
          let (enough, empty) = gate.0 h in
          let (ent, pol) = high_verdict e p m (omega arith) in (ent, pol, omega arith, empty),
      λ (ent, pol, half, empty). gate.1 (omega arith, empty),
    )

-- With a curve that never raises the agreement, the combined faithfulness is on [0, 1], is no more
-- than each of the three signals, and is the plain product if the curve is the identity.
pub combine_faithfulness-le :
    (verify agreement quality : ℤ) (curve : ℕ → ℤ) (v a q : ℕ)
    → on_unit verify ≡ some v
    → on_unit agreement ≡ some a
    → on_unit quality ≡ some q
    → (c : ℕ) → curve a ≡ pos c
    → c ≤ a
    → (combine_faithfulness verify agreement quality curve ≡ some (v * c * q))
      × (v * c * q ≤ v * unit * unit)
      × (v * c * q ≤ unit * a * unit)
      × (v * c * q ≤ unit * unit * q)
unfolding combine_faithfulness
combine_faithfulness-le verify agreement quality curve v a q ev ea eq c ec less =
    let v_le = on_unit_le verify v ev in
    let a_le = on_unit_le agreement a ea in
    let q_le = on_unit_le quality q eq in
    let c_le : c ≤ unit = omega arith in
    let mapped : on_unit (curve a) ≡ some c = rw ec (ground arith) in
    let left = mul_le_right c unit v c_le in
    let mid = mul_le_left v unit c v_le in
    let both = mul_le_right c a unit less in
    (
      rw (ev, ea, eq, mapped, combine_faithfulness) refl,
      omega (arith, mul_le_left (v * c) (v * unit) q left, mul_le_right q unit (v * unit) q_le),
      omega (
        arith,
        mul_le_left (v * c) (unit * a) q (omega arith),
        mul_le_right q unit (unit * a) q_le,
      ),
      omega (arith, mul_le_left (v * c) (unit * unit) q (omega arith)),
    )
