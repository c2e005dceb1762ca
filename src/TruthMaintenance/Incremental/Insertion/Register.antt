-- ===== src/TruthMaintenance/Incremental/Insertion/Register.antt =====
-- The registration of new rules keeps the indices and gives each rule its counter.
use mathlib.Core.List.{append-nil, append_assoc}
use iknos.Prelude.{
  ℕ, suc, ◌≡◌, refl, sym, ◌∙◌, true, false, inl, inr, List, [], ◌∷◌, ◌++◌, some, arith, contains,
  contains-append, append-Distinct, ◌==◌, if◌then◌else◌, Bool-cases, unmet_of,
}
use iknos.TruthMaintenance.Graph.{NodeId, Derivation}
use iknos.TruthMaintenance.Entries.{
  find, ids, ids_using, ids_heading, not-ids_using, not-ids_heading, contains-ids, enumerate,
}
use iknos.TruthMaintenance.Entries.Append.{
  ids-append, ids_using-append, ids_heading-append, find-append_some, find-append,
}
use iknos.TruthMaintenance.Front.{update}
use iknos.TruthMaintenance.Incremental.State.{Oracle}
use iknos.TruthMaintenance.Incremental.Stable.{Indexed}
use iknos.TruthMaintenance.Incremental.Insertion.{add_to, add_uses, register, register_all}

-- `set.add`, on the list that stands for a set
abbrev add_one : ℕ → List ℕ → List ℕ
add_one i l = if contains l i then l else l ++ i ∷ []

add_one_twice : (i : ℕ) (l : List ℕ) → add_one i (add_one i l) ≡ add_one i l
unfolding contains
add_one_twice i l = ground (arith, contains-append l (i ∷ []) i)

add_uses_lem :
    (body : List NodeId) (i : ℕ) (index : NodeId → List ℕ) (a : NodeId)
    → add_uses body i index a ≡ (if contains body a then add_one i (index a) else index a)
unfolding add_uses add_to contains
add_uses_lem [] i index a = refl
add_uses_lem (b ∷ body) i index a =
    ground (arith, add_uses_lem body i (add_to b i index) a, add_one_twice i (index a))

-- each rule of the table has the counter of its antecedents outside the baseline
abbrev pub Counters : List NodeId → Oracle → Type 0
Counters baseline o =
    (i : ℕ) (d : Derivation)
    → find o.derivs i ≡ some d
    → o.live.front.remaining i ≡ unmet_of (contains baseline) d.body

module _ (baseline : List NodeId) (i : ℕ) (d : Derivation) (o : Oracle) (x : Indexed o)
    (next : o.next_id ≡ i) where
  new_id : contains (ids o.derivs) i ≡ false
  new_id = elim (Bool-cases (contains (ids o.derivs) i)) [
    | inl present ↦ absurd (omega (arith, x.below i present))
    | inr absent ↦ absent
  ]

  Indexed-register : Indexed (register baseline i d o)
  unfolding register ids ids_using ids_heading contains add_to
  Indexed-register = record {
    keys = rw ids-append (append-Distinct (ids o.derivs) i x.keys new_id);
    below = λ j m.
        let split = contains-append (ids o.derivs) (i ∷ []) j in
        let grown = ids-append o.derivs ((i, d) ∷ []) in
        let m' : contains (ids o.derivs ++ i ∷ []) j ≡ true = rw grown at m in
        ground (arith, split, x.below j);
    uses = λ a.
        let start = x.uses a in
        rw (ids_using-append a o.derivs ((i, d) ∷ [])) (
          ground (
            arith,
            add_uses_lem d.body i o.uses a,
            not-ids_using a o.derivs i new_id,
            start,
            append-nil (ids_using a o.derivs),
          ));
    heads = λ c. rw (ids_heading-append c o.derivs ((i, d) ∷ [])) (
        ground (
          arith,
          not-ids_heading c o.derivs i new_id,
          x.heads c,
          append-nil (ids_heading c o.derivs),
        ));
  }

  old-register :
      (j : ℕ) (e : Derivation)
      → find o.derivs j ≡ some e
      → (register baseline i d o).live.front.remaining j ≡ o.live.front.remaining j
  unfolding register update
  old-register j e found = elim (Bool-cases (i == j)) [
    | inl same ↦
        let e' : i ≡ j = ground arith in
        let present = contains-ids o.derivs j e found in
        let gone : contains (ids o.derivs) j ≡ false = rw e' at new_id in cc
    | inr other ↦ ground arith
  ]

  Counters-register : Counters baseline o → Counters baseline (register baseline i d o)
  unfolding register update find
  Counters-register c j e found = elim (find-append o.derivs ((i, d) ∷ []) j e found) [
    | inl old ↦ old-register j e old ∙ c j e old
    | inr new ↦ ground arith
  ]

-- What the whole loop leaves, `ds` being the rules that it registers.
pub record Registered (ds : List Derivation) (o o' : Oracle) : Type 0 where
  pub table : o'.derivs ≡ o.derivs ++ enumerate o.next_id ds
  pub base : o'.base ≡ o.base
  pub supported : o'.live.front.supported ≡ o.live.front.supported
  pub worklist : o'.live.front.worklist ≡ o.live.front.worklist
  pub support_count : o'.live.support_count ≡ o.live.support_count
  pub old :
      (i : ℕ) (d : Derivation)
      → find o.derivs i ≡ some d
      → o'.live.front.remaining i ≡ o.live.front.remaining i

module _ (baseline : List NodeId) where
  pub Indexed-register_all :
      (ds : List Derivation) (k : ℕ) (o : Oracle)
      → o.next_id ≡ k
      → Indexed o
      → Indexed (register_all baseline (enumerate k ds) o)
  unfolding register_all enumerate
  Indexed-register_all [] k o next x = x
  Indexed-register_all (d ∷ ds) k o next x =
      Indexed-register_all ds (suc k) (register baseline k d o) refl
        (Indexed-register baseline k d o x next)

  pub Counters-register_all :
      (ds : List Derivation) (k : ℕ) (o : Oracle)
      → o.next_id ≡ k
      → Indexed o
      → Counters baseline o
      → Counters baseline (register_all baseline (enumerate k ds) o)
  unfolding register_all enumerate
  Counters-register_all [] k o next x c = c
  Counters-register_all (d ∷ ds) k o next x c =
      Counters-register_all ds (suc k) (register baseline k d o) refl
        (Indexed-register baseline k d o x next) (Counters-register baseline k d o x next c)

  pub Registered-register_all :
      (ds : List Derivation) (k : ℕ) (o : Oracle)
      → o.next_id ≡ k
      → Indexed o
      → Registered ds o (register_all baseline (enumerate k ds) o)
  unfolding register_all enumerate register
  Registered-register_all [] k o next x = record {
    table = sym (append-nil o.derivs);
    base = refl;
    supported = refl;
    worklist = refl;
    support_count = refl;
    old = λ i d h. refl;
  }
  Registered-register_all (d ∷ ds) k o next x =
      let o1 = register baseline k d o in
      let r = Registered-register_all ds (suc k) o1 refl (Indexed-register baseline k d o x next) in
      record {
        table = rw next (r.table ∙ append_assoc o.derivs ((k, d) ∷ []) (enumerate (suc k) ds));
        base = r.base;
        supported = r.supported;
        worklist = r.worklist;
        support_count = r.support_count;
        old = λ j e found.
            r.old j e (find-append_some o.derivs ((k, d) ∷ []) j e found)
            ∙ old-register baseline k d o x next j e found;
      }
