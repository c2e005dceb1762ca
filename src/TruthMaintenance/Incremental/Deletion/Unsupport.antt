-- ===== src/TruthMaintenance/Incremental/Deletion/Unsupport.antt =====
-- The middle step of `_delete`: the over-deleted nodes are unsupported, their counts are zeroed and
-- the counters of the rules that use them are computed again.
use iknos.Prelude.{
  ℕ, ◌≡◌, refl, ◌∙◌, ap, true, false, inl, inr, List, [], ◌∷◌, some, arith, contains,
  contains-append, minus, contains-minus, ◌==◌, if◌then◌else◌, Bool-cases, unmet_of, unmet_of_cong,
}
use iknos.TruthMaintenance.Graph.{NodeId, Derivation}
use iknos.TruthMaintenance.Entries.{Entry, find, contains-ids_using}
use iknos.TruthMaintenance.Front.{update}
use iknos.TruthMaintenance.Incremental.State.{Oracle}
use iknos.TruthMaintenance.Incremental.Stable.{Indexed}
use iknos.TruthMaintenance.Incremental.Deletion.{zero_counts, affected, refresh, unsupport, body_of}

zero_counts_lem :
    (over : List NodeId) (counts : NodeId → ℕ) (x : NodeId)
    → zero_counts over counts x ≡ (if contains over x then 0 else counts x)
unfolding zero_counts update contains
zero_counts_lem [] counts x = refl
zero_counts_lem (n ∷ over) counts x = ground (arith, zero_counts_lem over (update counts n 0) x)

refresh_lem :
    (es : List Entry) (kept : List NodeId) (is : List ℕ) (unmet : ℕ → ℕ) (i : ℕ)
    → refresh es kept is unmet i
      ≡ (if contains is i then unmet_of (contains kept) (body_of (find es i)) else unmet i)
unfolding refresh update contains
refresh_lem es kept [] unmet i = refl
refresh_lem es kept (j ∷ is) unmet i = elim (Bool-cases (j == i)) [
  | inl same ↦
      let e : j ≡ i = ground arith in
      rw e (
        ground (
          arith,
          refresh_lem es kept is (update unmet i (unmet_of (contains kept) (body_of (find es i))))
              i,
        ))
  | inr other ↦ ground (
    arith,
    refresh_lem es kept is (update unmet j (unmet_of (contains kept) (body_of (find es j)))) i,
  )
]

-- what the rules that use an over-deleted node have in their bodies
not-affected :
    (uses : NodeId → List ℕ) (over : List NodeId) (a : NodeId) (i : ℕ)
    → contains (affected uses over) i ≡ false
    → contains over a ≡ true
    → contains (uses a) i ≡ false
unfolding affected contains
not-affected uses [] a i h m = cc
not-affected uses (n ∷ over) a i h m =
    let split = contains-append (uses n) (affected uses over) i in
    elim (Bool-cases (n == a)) [
      | inl same ↦ let e : n ≡ a = ground arith in rw (← e) (ground arith)
      | inr other ↦ not-affected uses over a i (ground arith) (ground arith)
    ]

module _ (over : List NodeId) (o : Oracle) (x : Indexed o) where
  abbrev pub survivors : List NodeId
  survivors = minus o.live.front.supported over

  pub unsupport-support_count :
      (n : NodeId)
      → (unsupport over o).support_count n ≡ (if contains over n then 0 else o.live.support_count n)
  unfolding unsupport
  unsupport-support_count n = zero_counts_lem over o.live.support_count n

  -- after the step every counter is the number of antecedents outside the survivors
  pub unsupport-remaining :
      (i : ℕ) (d : Derivation)
      → find o.derivs i ≡ some d
      → o.live.front.remaining i ≡ unmet_of (contains o.live.front.supported) d.body
      → (unsupport over o).front.remaining i ≡ unmet_of (contains survivors) d.body
  unfolding unsupport
  unsupport-remaining i d found before =
      let r = refresh_lem o.derivs survivors (affected o.uses over) o.live.front.remaining i in
      elim (Bool-cases (contains (affected o.uses over) i)) [
        | inl hit ↦ r ∙ rw (hit, found)
        | inr free ↦
            r
            ∙ (rw free (
                before
                ∙ unmet_of_cong (contains o.live.front.supported) (contains survivors) d.body
                    (λ a m. same free a m)))
      ]
    where
      same :
          contains (affected o.uses over) i ≡ false
          → (a : NodeId) → contains d.body a ≡ true
          → contains o.live.front.supported a ≡ contains survivors a
      same free a m = elim (Bool-cases (contains over a)) [
        | inl gone ↦
            let unused = not-affected o.uses over a i free gone in
            let used = contains-ids_using a o.derivs i d x.keys found in
            let listed = ap (λ l. contains l i) (x.uses a) in absurd (cc)
        | inr stays ↦ ground (arith, contains-minus o.live.front.supported over a)
      ]
