-- ===== src/RevisionLoop/Commit.antt =====
-- What a run of core/revision_loop.py writes to the database.
use iknos.Prelude.{
  ◌≡◌, refl, sym, ap, ◌∙◌, inl, inr, Bool, true, false, not, ◌&&◌, ◌||◌, Option, none, some, List,
  [], ◌∷◌, contains, contains-sorted, sorted, ◌==◌, if◌then◌else◌, bind_inv, some_inv, Bool-cases,
  arith,
}
use mathlib.Core.Path.{subst}
use iknos.TruthMaintenance.Graph.{NodeId}
use iknos.ComposedLoop.{
  Stability, converged, oscillating, diverged, has_converged, StabilizationResult,
}
use iknos.QbafAdapter.{persist_verdicts}
use iknos.QbafAdapter.Persist.{stored_refuted, authorised_flip, persist_verdicts_safe}
use iknos.RevisionLoop.{
  retired_one, set_confidence, Engines, RevisionPlan, RevisionSnapshot, RevisionResult, Database,
  retire, write_back, active_governed, written_confidence, persist, run, commit_run,
}

twice :
    {V : Type 0} (b m c : Bool) (x y : V)
    → (if m && c then x else (if b && c then x else y)) ≡ (if (b || m) && c then x else y)
twice true true true x y = refl
twice true true false x y = refl
twice true false true x y = refl
twice true false false x y = refl
twice false true true x y = refl
twice false true false x y = refl
twice false false true x y = refl
twice false false false x y = refl

status_converged : (s : Stability) → has_converged s ≡ true → s ≡ converged
status_converged converged e = refl
status_converged oscillating e = cc
status_converged diverged e = cc

module _ {V : Type 0} where
  retire-current :
      (nids : List NodeId) (db : Database V) (h : NodeId)
      → (retire nids db).current h ≡ (not (contains nids h) && db.current h)
  unfolding retire contains
  retire-current [] db h = refl
  retire-current (nid ∷ nids) db h = ground (arith, retire-current nids (retired_one nid db) h)

  retire-hypotheses :
      (nids : List NodeId) (db : Database V) (h : NodeId)
      → stored_refuted ((retire nids db).hypotheses h) ≡ true
      → stored_refuted (db.hypotheses h) ≡ true
  unfolding retire
  retire-hypotheses [] db h r = r
  retire-hypotheses (nid ∷ nids) db h r =
      let later = retire-hypotheses nids (retired_one nid db) h r in
      elim (Bool-cases (nid == h)) [
        | inl at ↦ absurd (let gone : stored_refuted {V = V} none ≡ true = rw at at later in cc)
        | inr other ↦ rw other at later
      ]

  retire-confidence :
      (nids : List NodeId) (db : Database V) (h : NodeId)
      → (retire nids db).confidence h ≡ db.confidence h
  unfolding retire
  retire-confidence [] db h = refl
  retire-confidence (nid ∷ nids) db h = retire-confidence nids (retired_one nid db) h

  module _ (conf : NodeId → V) where
    write_back-current :
        (nids : List NodeId) (db : Database V) (h : NodeId)
        → (write_back conf nids db).current h ≡ db.current h
    unfolding write_back
    write_back-current [] db h = refl
    write_back-current (nid ∷ nids) db h = write_back-current nids (set_confidence conf nid db) h

    write_back-hypotheses :
        (nids : List NodeId) (db : Database V) (h : NodeId)
        → (write_back conf nids db).hypotheses h ≡ db.hypotheses h
    unfolding write_back
    write_back-hypotheses [] db h = refl
    write_back-hypotheses (nid ∷ nids) db h =
        write_back-hypotheses nids (set_confidence conf nid db) h

    write_back-confidence :
        (nids : List NodeId) (db : Database V) (h : NodeId)
        → (write_back conf nids db).confidence h
          ≡ (if contains nids h && db.current h then conf h else db.confidence h)
    unfolding write_back contains
    write_back-confidence [] db h = refl
    write_back-confidence (nid ∷ nids) db h =
        write_back-confidence nids (set_confidence conf nid db) h
        ∙ twice (nid == h) (contains nids h) (db.current h) (conf h) (db.confidence h)

module _ {V : Type 0} (engines : Engines V) (plan : RevisionPlan V) where
  -- what a committed run leaves of each node
  pub record Committed (before after : Database V) (result : RevisionResult V) : Type 0 where
    pub retired :
        (h : NodeId) → after.current h ≡ (not (contains result.retracted h) && before.current h)
    pub recomputed :
        (h : NodeId)
        → after.confidence h ≡ (
            if contains (active_governed engines plan result.retracted) h && after.current h
            then written_confidence engines plan result.final h
            else before.confidence h)
    pub gated :
        (h : NodeId)
        → stored_refuted (after.hypotheses h) ≡ true
        → (stored_refuted (before.hypotheses h)
            || authorised_flip result.final.decisions result.final.verdicts h)
          ≡ true

  persist-Committed :
      (final : RevisionSnapshot V) (stab : StabilizationResult (Option (List NodeId)))
      (db : Database V)
      → let (after, report) = persist engines plan final db in
        Committed db after record {
          stabilization = stab;
          final = final;
          persisted = some report;
          retracted = final.retracted;
        }
  unfolding persist
  persist-Committed final stab db =
      let written : Database V = record {
        hypotheses = (persist_verdicts final.decisions final.verdicts db.hypotheses).0;
        current = db.current;
        confidence = db.confidence;
      } in
      let gone = sorted final.retracted in
      let conf = written_confidence engines plan final in
      let governed = active_governed engines plan final.retracted in
      let left = retire gone written in
      record {
        retired = λ h. ground (
          arith,
          write_back-current conf governed left h,
          retire-current gone written h,
          contains-sorted final.retracted h,
        );
        recomputed = λ h.
            write_back-confidence conf governed left h
            ∙ ap (λ c. if contains governed h && c then conf h else left.confidence h)
                (sym (write_back-current conf governed left h))
            ∙ ap
                (λ y.
                  if contains governed h && (write_back conf governed left).current h
                  then conf h
                  else y)
                (retire-confidence gone written h);
        gated = λ h r. persist_verdicts_safe final.decisions final.verdicts db.hypotheses h (
            retire-hypotheses gone written h
              (ap stored_refuted (sym (write_back-hypotheses conf governed left h)) ∙ r));
      }

  -- the two ways in which a run that returns ends
  pub data Ran (persisting : Bool) (before after : Database V) (result : RevisionResult V)
      : Type 0 where
    commits :
        result.stabilization.status ≡ converged
        → persisting ≡ true
        → Committed before after result
        → Ran persisting before after result
    leaves :
        (has_converged result.stabilization.status && persisting) ≡ false
        → after ≡ before
        → result.retracted ≡ []
        → Ran persisting before after result

  -- A run that returns either has converged and commits: the retracted nodes are retired, the
  -- confidence of the governed nodes left is rewritten, and a refuted state is new only with the
  -- gate's authority. Or it writes nothing.
  pub commit_run-Ran :
      (persisting : Bool) (before after : Database V) (result : RevisionResult V)
      → commit_run engines plan persisting before ≡ some (after, result)
      → Ran persisting before after result
  unfolding commit_run
  commit_run-Ran persisting before after result e =
      let ((stab, final), _, made) = bind_inv (run engines plan) _ (after, result) e in
      elim (Bool-cases (has_converged stab.status && persisting)) [
        | inl commit ↦
            subst (λ p. Ran persisting before p.0 p.1) (some_inv (rw commit at made))
              (commits (status_converged stab.status (ground arith)) (ground arith)
                (persist-Committed final stab before))
        | inr hold ↦
            subst (λ p. Ran persisting before p.0 p.1) (some_inv (rw hold at made))
              (leaves hold refl refl)
      ]
