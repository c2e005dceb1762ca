-- ===== src/Epistemic/Reasons.antt =====
-- The provisional reasons: what a reassessment keeps, and when the gate of core/quarantine.py fires.
use iknos.Prelude.{
  ℕ, ◌≡◌, refl, sym, ◌∙◌, ◌↔◌, ◌⊎◌, inl, inr, false, not, ◌&&◌, ◌||◌, Option, none, some, List, [],
  ◌∷◌, ◌++◌, arith, contains, contains-append, contains-keep, contains-sorted, keep,
  sorted-Distinct, Distinct, Bool-cases, ℤ,
}
use iknos.Epistemic.{
  Stakes, low, high, provisional_reasons_for, merge_provisional_reasons, concat,
  on_faithfulness_axis, reassess_faithfulness_reasons, any_reason, assert_not_quarantined,
}

pub contains-merge :
    (xs ys : List ℕ) (r : ℕ)
    → contains (merge_provisional_reasons (xs ∷ ys ∷ [])) r ≡ (contains xs r || contains ys r)
unfolding merge_provisional_reasons contains
contains-merge xs ys r = ground (
  arith,
  contains-sorted (xs ++ (ys ++ [])) r,
  contains-append xs (ys ++ []) r,
  contains-append ys [] r,
)

contains-merge_one :
    (xs : List ℕ) (r : ℕ) → contains (merge_provisional_reasons (xs ∷ [])) r ≡ contains xs r
unfolding merge_provisional_reasons contains
contains-merge_one xs r = ground (arith, contains-sorted (xs ++ []) r, contains-append xs [] r)

merge-Distinct : (groups : List (List ℕ)) → Distinct (merge_provisional_reasons groups)
unfolding merge_provisional_reasons
merge-Distinct groups = sorted-Distinct (concat groups)

-- A reassessment keeps every reason that is not on the faithfulness axis, and has on the axis what
-- the new faithfulness gives and nothing else. Each reason is listed once.
pub reassess_faithfulness_reasons_lem :
    (existing : List ℕ) (faithfulness : Option ℤ) (threshold : ℕ) (fresh : List ℕ)
    → provisional_reasons_for faithfulness threshold ≡ some fresh
    → (rs : List ℕ) × (reassess_faithfulness_reasons existing faithfulness threshold ≡ some rs)
      × ((r : ℕ)
          → contains rs r
            ≡ ((not (on_faithfulness_axis r) && contains existing r) || contains fresh r))
      × Distinct rs
unfolding reassess_faithfulness_reasons
reassess_faithfulness_reasons_lem existing faithfulness threshold fresh e =
    let preserved = keep (λ r. not (on_faithfulness_axis r)) existing in
    (
      merge_provisional_reasons (preserved ∷ fresh ∷ []),
      rw (e, reassess_faithfulness_reasons) refl,
      λ r. ground (
        arith,
        contains-merge preserved fresh r,
        contains-keep (λ r. not (on_faithfulness_axis r)) existing r,
      ),
      merge-Distinct (preserved ∷ fresh ∷ []),
    )

any_reason-contains : (rs : List ℕ) → (any_reason rs ≡ false) ↔ ((r : ℕ) → contains rs r ≡ false)
unfolding contains
any_reason-contains [] = (λ e r. refl, λ h. refl)
any_reason-contains (r ∷ rs) = (λ e. cc, λ h. let no = h r in ground arith)

-- A move passes the gate exactly if its stakes are low or its evidence has no provisional reason.
pub assert_not_quarantined_iff :
    (rs : List ℕ) (stakes : Stakes)
    → (assert_not_quarantined rs stakes ≡ none)
      ↔ ((stakes ≡ low) ⊎ ((r : ℕ) → contains rs r ≡ false))
unfolding assert_not_quarantined
assert_not_quarantined_iff rs low = (λ e. inl refl, λ h. refl)
assert_not_quarantined_iff rs high =
    let merged = merge_provisional_reasons (rs ∷ []) in
    elim (Bool-cases (any_reason merged)) [
      | inl some_reason ↦ (
        λ e. absurd (let fires = rw some_reason at e in cc),
        λ h. elim h [
          | inl is_low ↦ cc
          | inr empty ↦
              let none_merged =
                (any_reason-contains merged).1 (λ r. contains-merge_one rs r ∙ empty r) in
              cc
        ],
      )
      | inr no_reason ↦ (
        λ e. inr (λ r. sym (contains-merge_one rs r) ∙ (any_reason-contains merged).0 no_reason r),
        λ h. rw no_reason refl,
      )
    ]
