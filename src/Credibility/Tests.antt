-- ===== src/Credibility/Tests.antt =====
-- The theorems on credibility at one prior.
use iknos.Prelude.{ℕ, ◌*◌, ◌≤◌, ◌≡◌, arith, unit}
use iknos.Epistemic.{judgement}
use iknos.Credibility.{self_serving, not_involved, against_interest, unknown}
use iknos.Credibility.Interest.{Credible, effective_credibility-order}

effective_credibility-order_example :
    (s : ℕ) × (n : ℕ) × (a : ℕ) × Credible 800000 judgement self_serving s
    × Credible 800000 judgement not_involved n
    × Credible 800000 judgement against_interest a
    × Credible 800000 judgement unknown n
    × (n ≡ 800000 * 100)
    × (s ≤ n)
    × (n ≤ a)
    × (a ≤ unit * 100)
effective_credibility-order_example = effective_credibility-order 800000 judgement (omega arith)
