-- ===== src/Epistemic.antt =====
-- types/epistemic.py, core/quarantine.py and the scoring of core/proposition.py: faithfulness, the provisional reasons of a proposition,
-- and the gate that keeps a provisional one from a move of high stakes.
-- A faithfulness is read in millionths, which hold each product of the source's factors exactly.
-- A reason is an opaque string there: here a number, in the alphabetical order of the texts.
pub mod Reasons
pub mod Faithfulness
mod Tests
use iknos.Prelude.{
  ℕ, ◌*◌, ◌≡◌, Bool, true, false, not, ◌&&◌, ◌||◌, Option, none, some, List, [], ◌∷◌, ◌++◌,
  contains, keep, sorted, ltb, leb, ◌==◌, if◌then◌else◌, ℤ, pos, negsuc, unit, on_unit,
}

pub data EpistemicClass : Type 0 where
  observation testimony judgement : EpistemicClass

pub data Routing : Type 0 where
  as_fact as_judgement : Routing

-- `_ROUTING`, and `route_for`
abbrev pub route_for : EpistemicClass → Routing
route_for observation = as_fact
route_for testimony = as_judgement
route_for judgement = as_judgement

pub data Entailment : Type 0 where
  entailed neutral contradicted : Entailment

pub data Stakes : Type 0 where
  low high : Stakes

-- `_FAITHFULNESS_THRESHOLD_BY_STAKES`
abbrev pub provisional_threshold_for : Stakes → ℕ
provisional_threshold_for low = 0
provisional_threshold_for high = 500000

pub data ProvisionalReason : Type 0 where
  low_faithfulness polarity_unstable unassessed_faithfulness uninferred_budget
        unresolved_reference :
      ProvisionalReason

-- the text of a reason
abbrev pub reason_text : ProvisionalReason → ℕ
reason_text low_faithfulness = 0
reason_text polarity_unstable = 1
reason_text unassessed_faithfulness = 2
reason_text uninferred_budget = 3
reason_text unresolved_reference = 4

-- `none` is the ValueError of a faithfulness out of range.
abbrev low_reason : Option ℕ → ℕ → Option (List ℕ)
low_reason none threshold = none
low_reason (some f) threshold =
    some (if ltb f threshold then reason_text low_faithfulness ∷ [] else [])

unfoldable pub provisional_reasons_for : Option ℤ → ℕ → Option (List ℕ)
provisional_reasons_for none threshold = some (reason_text unassessed_faithfulness ∷ [])
provisional_reasons_for (some f) threshold = low_reason (on_unit f) threshold

abbrev pub concat : List (List ℕ) → List ℕ
concat [] = []
concat (group ∷ groups) = group ++ concat groups

unfoldable pub merge_provisional_reasons : List (List ℕ) → List ℕ
unfolding sorted
merge_provisional_reasons groups = sorted (concat groups)

-- `_with_faithfulness_reason` of core/proposition.py: the reasons of a proposition whose verification
-- is settled, at the default threshold. `none` is the ValueError.
unfoldable pub with_faithfulness_reason : Option ℤ → List ℕ → Option (List ℕ)
unfolding provisional_reasons_for merge_provisional_reasons
with_faithfulness_reason faithfulness provisional_reasons =
    elim (provisional_reasons_for faithfulness (provisional_threshold_for high)) [
      | none ↦ none
      | some fresh ↦ some (merge_provisional_reasons (provisional_reasons ∷ fresh ∷ []))
    ]

-- `_FAITHFULNESS_AXIS_REASONS`
abbrev pub on_faithfulness_axis : ℕ → Bool
on_faithfulness_axis r =
    r == reason_text low_faithfulness || r == reason_text unassessed_faithfulness

unfoldable pub reassess_faithfulness_reasons : List ℕ → Option ℤ → ℕ → Option (List ℕ)
unfolding provisional_reasons_for merge_provisional_reasons keep
reassess_faithfulness_reasons existing faithfulness threshold =
    let preserved = keep (λ r. not (on_faithfulness_axis r)) existing in
    elim (provisional_reasons_for faithfulness threshold) [
      | none ↦ none
      | some fresh ↦ some (merge_provisional_reasons (preserved ∷ fresh ∷ []))
    ]

abbrev pub any_reason : List ℕ → Bool
any_reason [] = false
any_reason (r ∷ rs) = true

-- the boolean of the transition window
abbrev pub legacy_provisional : Option ℤ → List ℕ → Option Bool
legacy_provisional none [] = none
legacy_provisional none (r ∷ rs) = some true
legacy_provisional (some f) reasons = some (any_reason reasons)

-- `_ENTAILMENT_BASE`, in hundredths
abbrev pub entailment_base : Entailment → ℕ
entailment_base contradicted = 0
entailment_base neutral = 30
entailment_base entailed = 100

-- three factors in hundredths
unfoldable pub faithfulness_from_verdict :
    Entailment → (polarity_preserved modality_preserved : Bool) → ℕ
faithfulness_from_verdict entailment polarity modality =
    entailment_base entailment * (if polarity then 100 else 40) * (if modality then 100 else 70)

-- `calibrate_agreement`, the curve that is used if the caller gives none
abbrev pub calibrate_agreement : ℤ → Option ℕ
calibrate_agreement agreement = on_unit agreement

abbrev product : Option ℕ → Option ℕ → Option ℕ → Option ℕ
product (some v) (some a) (some q) = some (v * a * q)
product (some v) (some a) none = none
product (some v) none q = none
product none a q = none

-- the curve runs after the guard on its argument, and its value is guarded
abbrev calibrated : (ℕ → ℤ) → Option ℕ → Option ℕ
calibrated curve none = none
calibrated curve (some a) = on_unit (curve a)

-- The product of three numbers on [0, 1]: in units of 10 ^ -18. `none` is a ValueError.
unfoldable pub combine_faithfulness :
    (verify agreement parse_quality : ℤ) → (agreement_curve : ℕ → ℤ) → Option ℕ
combine_faithfulness verify agreement parse_quality curve =
    product (on_unit verify) (calibrated curve (on_unit agreement)) (on_unit parse_quality)

-- `_gates_on_provisional`
abbrev pub gates_on_provisional : Stakes → Bool
gates_on_provisional stakes = ltb 0 (provisional_threshold_for stakes)

pub record QuarantinedPropositionError : Type 0 where
  pub reasons : List ℕ
  pub stakes : Stakes

-- `none` is the return without an error: the move is authorised.
unfoldable pub assert_not_quarantined : List ℕ → Stakes → Option QuarantinedPropositionError
unfolding merge_provisional_reasons
assert_not_quarantined proposition_reasons stakes =
    let merged = merge_provisional_reasons (proposition_reasons ∷ []) in
    if gates_on_provisional stakes && any_reason merged
    then some (record { reasons = merged; stakes = stakes })
    else none
