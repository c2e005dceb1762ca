-- ===== src/QbafAdapter/Tests.antt =====
-- Two computed refutations, of which the gate authorises one, and the theorems at them.
use iknos.Prelude.{
  ℕ, ◌≡◌, refl, true, false, ◌||◌, Option, none, some, List, [], ◌∷◌, length, any, ◌==◌,
  if◌then◌else◌,
}
use iknos.TruthMaintenance.Graph.{NodeId}
use iknos.EnsembleGate.{GateDecision, authorised}
use iknos.Intentional.{supported, refuted, band_false}
use iknos.QbafAdapter.{HypothesisVerdict, Store, refutation_held, written_to, persist_verdicts}
use iknos.QbafAdapter.Persist.{
  stored_refuted, authorised_flip, persist_verdicts_safe, held_flip, persist_verdicts_reports,
}

abbrev refutation_of : NodeId → HypothesisVerdict ℕ
refutation_of h = record { id = h; acceptability = 100000; presented = band_false; state = refuted }

abbrev verdicts : List (HypothesisVerdict ℕ)
verdicts = refutation_of 1 ∷ refutation_of 2 ∷ []

abbrev decisions : NodeId → Option GateDecision
decisions h =
    if h == 1 then some record { outcome = authorised; signals = []; reasons = [] } else none

abbrev store : Store ℕ
store h = some record { acceptability = 700000; state = some supported; pending_refutation = false }

one_flips : stored_refuted ((persist_verdicts decisions verdicts store).0 1) ≡ true
unfolding persist_verdicts refutation_held written_to
one_flips = refl

two_holds : stored_refuted ((persist_verdicts decisions verdicts store).0 2) ≡ false
unfolding persist_verdicts refutation_held written_to
two_holds = refl

persist_verdicts_safe_example :
    (stored_refuted (store 1) || authorised_flip decisions verdicts 1) ≡ true
persist_verdicts_safe_example = persist_verdicts_safe decisions verdicts store 1 one_flips

persist_verdicts_reports_example :
    let r = (persist_verdicts decisions verdicts store).1 in
    (r.written ≡ length verdicts) × (any (λ x. x.id == 2) r.held ≡ held_flip decisions verdicts 2)
persist_verdicts_reports_example = persist_verdicts_reports decisions verdicts store 2
