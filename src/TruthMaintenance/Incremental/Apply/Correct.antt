-- ===== src/TruthMaintenance/Incremental/Apply/Correct.antt =====
-- `IncrementalOracle.apply` against the recompute: the retained state follows the snapshot.
use iknos.Prelude.{
  ℕ, ◌≡◌, refl, sym, ◌∙◌, true, false, ◌&&◌, inl, inr, List, [], ◌∷◌, none, some, arith, contains,
  contains-minus, minus, Distinct, if◌then◌else◌, Bool-cases, Bool_ext,
}
use iknos.TruthMaintenance.Graph.{NodeId, Derivation, DerivationGraph, same_deriv, has_deriv}
use iknos.TruthMaintenance.Graph.Rules.{
  has_deriv_intro, has_deriv_witness, has_deriv_cong, has_deriv-append, Supported-cong,
}
use iknos.TruthMaintenance.Entries.{
  Entry, find, ids, ids_using, ids_heading, rules, rules-enumerate, InRules-find, find-InRules,
}
use iknos.TruthMaintenance.Entries.Append.{rules-append}
use iknos.TruthMaintenance.Recompute.{well_founded_support}
use iknos.TruthMaintenance.Recompute.Correct.{well_founded_support-iff-Supported}
use iknos.TruthMaintenance.Incremental.State.{Oracle, init}
use iknos.TruthMaintenance.Incremental.Cascade.{fired}
use iknos.TruthMaintenance.Incremental.Stable.{Stable, Stable-complete}
use iknos.TruthMaintenance.Incremental.Insertion.Correct.{insert-Stable, insert-base, insert-derivs}
use iknos.TruthMaintenance.Incremental.Deletion.{delete}
use iknos.TruthMaintenance.Incremental.Deletion.Correct.{delete-Stable, delete-base, delete-find}
use iknos.TruthMaintenance.Incremental.Apply.{
  distinct_derivs, derivs_minus, entries_minus, is_empty, apply,
}
use iknos.TruthMaintenance.Incremental.Apply.Diff.{
  has_deriv-added, has_deriv-sort_derivs, contains-entries_minus, entries_minus-Distinct,
  find-entries_minus,
}

-- an oracle holds the snapshot
pub record Matches (g : DerivationGraph) (o : Oracle) : Type 0 where
  pub base : (x : NodeId) → contains o.base x ≡ contains g.base_facts x
  pub derivations : (d : Derivation) → has_deriv (rules o.derivs) d ≡ has_deriv g.derivations d

empty-contains : (xs : List ℕ) → is_empty xs ≡ true → (x : ℕ) → contains xs x ≡ false
unfolding contains
empty-contains [] h x = refl
empty-contains (y ∷ xs) h x = cc

empty-has_deriv :
    (ds : List Derivation) → is_empty ds ≡ true → (d : Derivation) → has_deriv ds d ≡ false
unfolding has_deriv
empty-has_deriv [] h d = refl
empty-has_deriv (e ∷ ds) h d = cc

empty-ids : (es : List Entry) → is_empty es ≡ true → (i : ℕ) → contains (ids es) i ≡ false
unfolding contains ids
empty-ids [] h i = refl
empty-ids (e ∷ es) h i = cc

-- a rule of the table, up to equality, is found under some key
has_deriv-find :
    (es : List Entry) (d : Derivation)
    → Distinct (ids es)
    → has_deriv (rules es) d ≡ true
    → (i : ℕ) × (e : Derivation) × (find es i ≡ some e) × (same_deriv e d ≡ true)
has_deriv-find es d k h =
    let (e, m, same) = has_deriv_witness (rules es) d h in
    let (i, found) = InRules-find es e k m in (i, e, found, same)

find-has_deriv :
    (es : List Entry) (i : ℕ) (d e : Derivation)
    → find es i ≡ some e
    → same_deriv e d ≡ true
    → has_deriv (rules es) d ≡ true
find-has_deriv es i d e found same = has_deriv_intro (rules es) d e (find-InRules es i e found) same

-- the deletion branch of `apply`, taken or not
module _ (g : DerivationGraph) (o : Oracle) (s : Stable o) where
  abbrev removed_base : List NodeId
  removed_base = minus o.base g.base_facts

  abbrev removed : List Entry
  removed = entries_minus o.derivs g.derivations

  abbrev shrunk : Oracle
  shrunk = if is_empty removed_base && is_empty removed then o else delete removed_base removed o

  removed-Distinct : Distinct (ids removed)
  removed-Distinct = entries_minus-Distinct o.derivs g.derivations s.indexed.keys

  removed-find : (j : ℕ) (e : Derivation) → find removed j ≡ some e → find o.derivs j ≡ some e
  removed-find j e h = find-entries_minus o.derivs g.derivations j e s.indexed.keys h

  shrunk-Stable : Stable shrunk
  shrunk-Stable = elim (Bool-cases (is_empty removed_base && is_empty removed)) [
    | inl none_gone ↦ rw none_gone s
    | inr some_gone ↦
        rw some_gone (delete-Stable removed_base removed o s removed-Distinct removed-find)
  ]

  shrunk-base :
      (x : NodeId) → contains shrunk.base x ≡ (contains g.base_facts x && contains o.base x)
  shrunk-base x = elim (Bool-cases (is_empty removed_base && is_empty removed)) [
    | inl none_gone ↦
        let gone = empty-contains removed_base (ground arith) x in
        rw none_gone (ground (arith, gone, contains-minus o.base g.base_facts x))
    | inr some_gone ↦
        let left = delete-base removed_base removed o s removed-Distinct removed-find x in
        rw some_gone (ground (arith, left, contains-minus o.base g.base_facts x))
  ]

  shrunk-find :
      (j : ℕ) → find shrunk.derivs j ≡ (if contains (ids removed) j then none else find o.derivs j)
  shrunk-find j = elim (Bool-cases (is_empty removed_base && is_empty removed)) [
    | inl none_gone ↦ let gone = empty-ids removed (ground arith) j in rw none_gone (rw gone refl)
    | inr some_gone ↦
        rw some_gone (delete-find removed_base removed o s removed-Distinct removed-find j)
  ]

  -- the rules that are left are those of both snapshots
  shrunk-rules :
      (d : Derivation)
      → has_deriv (rules shrunk.derivs) d
        ≡ (has_deriv g.derivations d && has_deriv (rules o.derivs) d)
  shrunk-rules d =
      Bool_ext _ _
        (λ h.
          let (i, e, found, same) = has_deriv-find shrunk.derivs d shrunk-Stable.indexed.keys h in
          let stays = shrunk-find i in
          elim (Bool-cases (contains (ids removed) i)) [
            | inl gone ↦ ground arith
            | inr kept ↦
                let was : find o.derivs i ≡ some e = ground arith in
                ground (
                  arith,
                  find-has_deriv o.derivs i d e was same,
                  contains-entries_minus o.derivs g.derivations i e s.indexed.keys was,
                  has_deriv_cong g.derivations e d same,
                )
          ])
        (λ h.
          let (i, e, found, same) = has_deriv-find o.derivs d s.indexed.keys (ground arith) in
          let here = has_deriv_cong g.derivations e d same in
          let kept = contains-entries_minus o.derivs g.derivations i e s.indexed.keys found in
          let lost : contains (ids removed) i ≡ false = ground arith in
          find-has_deriv shrunk.derivs i d e (shrunk-find i ∙ rw lost found) same)

  abbrev added_base : List NodeId
  added_base = minus g.base_facts o.base

  abbrev added : List Derivation
  added = derivs_minus (distinct_derivs g.derivations) (rules o.derivs)

  added-apart : (x : NodeId) → contains added_base x ≡ true → contains shrunk.base x ≡ false
  added-apart x h = ground (arith, contains-minus g.base_facts o.base x, shrunk-base x)

  -- One snapshot: the invariant holds again.
  pub apply-Stable : Stable (apply g o)
  unfolding apply
  apply-Stable = elim (Bool-cases (is_empty added_base && is_empty added)) [
    | inl none_new ↦ rw none_new shrunk-Stable
    | inr some_new ↦ rw some_new (insert-Stable added_base added shrunk shrunk-Stable added-apart)
  ]

  apply-base : (x : NodeId) → contains (apply g o).base x ≡ contains g.base_facts x
  unfolding apply
  apply-base x = elim (Bool-cases (is_empty added_base && is_empty added)) [
    | inl none_new ↦
        let gone = empty-contains added_base (ground arith) x in
        rw none_new (ground (arith, gone, contains-minus g.base_facts o.base x, shrunk-base x))
    | inr some_new ↦
        let new = insert-base added_base added shrunk shrunk-Stable added-apart x in
        rw some_new (ground (arith, new, contains-minus g.base_facts o.base x, shrunk-base x))
  ]

  apply-rules :
      (d : Derivation) → has_deriv (rules (apply g o).derivs) d ≡ has_deriv g.derivations d
  unfolding apply
  apply-rules d = elim (Bool-cases (is_empty added_base && is_empty added)) [
    | inl none_new ↦
        let gone = empty-has_deriv added (ground arith) d in
        rw none_new
          (ground (arith, gone, has_deriv-added g.derivations (rules o.derivs) d, shrunk-rules d))
    | inr some_new ↦
        let table = insert-derivs added_base added shrunk shrunk-Stable added-apart in
        rw (some_new, table, rules-append, rules-enumerate, has_deriv-append, has_deriv-sort_derivs)
          (ground (arith, has_deriv-added g.derivations (rules o.derivs) d, shrunk-rules d))
  ]

  -- and the table and the base are those of the snapshot
  pub apply-Matches : Matches g (apply g o)
  apply-Matches = record { base = apply-base; derivations = apply-rules }

-- A state that holds a snapshot answers as the recompute does.
pub Stable-recompute :
    (g : DerivationGraph) (o : Oracle) (x : NodeId)
    → Stable o
    → Matches g o
    → contains o.live.front.supported x ≡ contains (well_founded_support g) x
Stable-recompute g o x s m =
    Bool_ext _ _
      (λ h. (well_founded_support-iff-Supported g x).1 (
        Supported-cong (contains o.base) (contains g.base_facts) (rules o.derivs) g.derivations
          m.base m.derivations (s.sound x h)))
      (λ h. Stable-complete o s (
        Supported-cong (contains g.base_facts) (contains o.base) g.derivations (rules o.derivs)
          (λ n. sym (m.base n)) (λ d. sym (m.derivations d))
          ((well_founded_support-iff-Supported g x).0 h)))

pub init-Stable : Stable init
unfolding init ids find contains ids_using ids_heading fired
init-Stable = record {
  indexed = record { keys = tt; below = λ i h. ground arith; uses = λ a. refl; heads = λ c. refl };
  empty = refl;
  counters = λ i d h. cc;
  closed = λ i d h z. cc;
  sound = λ x h. cc;
  grounds = λ x h. cc;
  exact = λ x. refl;
}
