-- ===== src/TruthMaintenance/Incremental/Deletion/Unregister.antt =====
-- The first step of `_delete`: base facts and rules leave the tables, and the nodes that lost a
-- grounding are the seeds.
use iknos.Prelude.{
  ℕ, ◌≡◌, refl, sym, ◌∙◌, true, false, not, ◌&&◌, inl, inr, List, [], ◌∷◌, none, some, arith,
  contains, keep, contains-keep, Distinct, ◌==◌, if◌then◌else◌, Bool-cases,
}
use iknos.TruthMaintenance.Graph.{NodeId, Derivation}
use iknos.TruthMaintenance.Entries.{
  Entry, find, ids, ids_using, ids_heading, contains-ids, contains-ids_using, contains-ids_heading,
}
use iknos.TruthMaintenance.Entries.Remove.{
  remove_entry, other_than, find-remove_entry, contains-ids-remove_entry, remove_entry-Distinct,
  ids_using-remove_entry, ids_heading-remove_entry, keep_absent, keep_twice,
}
use iknos.TruthMaintenance.Incremental.State.{Oracle}
use iknos.TruthMaintenance.Incremental.Cascade.{fired}
use iknos.TruthMaintenance.Incremental.Stable.{Indexed}
use iknos.TruthMaintenance.Incremental.Deletion.{discard_from, discard_uses, unground, unregister}

discard_uses_lem :
    (body : List NodeId) (i : ℕ) (index : NodeId → List ℕ) (a : NodeId)
    → discard_uses body i index a
      ≡ (if contains body a then keep (other_than i) (index a) else index a)
unfolding discard_uses discard_from contains
discard_uses_lem [] i index a = refl
discard_uses_lem (b ∷ body) i index a =
    ground (arith, discard_uses_lem body i (discard_from b i index) a, keep_twice i (index a))

fired-remove_absent :
    (i : ℕ) (es : List Entry) (unmet : ℕ → ℕ) (c : NodeId)
    → contains (ids es) i ≡ false
    → fired (remove_entry i es) unmet c ≡ fired es unmet c
unfolding fired remove_entry ids contains
fired-remove_absent i [] unmet c h = refl
fired-remove_absent i ((j, e) ∷ es) unmet c h = ground (arith, fired-remove_absent i es unmet c)

-- a rule that had not fired for `c` leaves the count of `c`
fired-remove_entry :
    (i : ℕ) (d : Derivation) (es : List Entry) (unmet : ℕ → ℕ) (c : NodeId)
    → Distinct (ids es)
    → find es i ≡ some d
    → (d.conclusion == c && unmet i == 0) ≡ false
    → fired (remove_entry i es) unmet c ≡ fired es unmet c
unfolding fired remove_entry ids find
fired-remove_entry i d [] unmet c k h q = cc
fired-remove_entry i d ((j, e) ∷ es) unmet c k h q = elim (Bool-cases (i == j)) [
  | inl same ↦
      let e' : j ≡ i = ground arith in
      let gone : contains (ids es) i ≡ false = rw e' at k.0 in
      let quiet : (e.conclusion == c && unmet j == 0) ≡ false = ground arith in
      ground (arith, fired-remove_absent i es unmet c gone)
  | inr other ↦ ground (arith, fired-remove_entry i d es unmet c k.1)
]

-- a rule that leaves the table
abbrev pub drop_rule : ℕ → Derivation → Oracle → Oracle
drop_rule i d o = record o {
  derivs = remove_entry i o.derivs;
  uses = discard_uses d.body i o.uses;
  heads = discard_from d.conclusion i o.heads;
}

module _ (i : ℕ) (d : Derivation) (o : Oracle) (x : Indexed o)
    (found : find o.derivs i ≡ some d) where
  Indexed-drop_rule : Indexed (drop_rule i d o)
  unfolding discard_from
  Indexed-drop_rule = record {
    keys = remove_entry-Distinct i o.derivs x.keys;
    below = λ j m. x.below j (ground (arith, contains-ids-remove_entry i o.derivs j));
    uses = λ a.
        rw (ids_using-remove_entry, discard_uses_lem d.body i o.uses a, x.uses a)
          (elim (Bool-cases (contains d.body a)) [
            | inl used ↦ rw used
            | inr free ↦
                let e = contains-ids_using a o.derivs i d x.keys found in
                rw free (sym (keep_absent i (ids_using a o.derivs) (e ∙ free)))
          ]);
    heads = λ c.
        rw (ids_heading-remove_entry, x.heads c)
          (elim (Bool-cases (d.conclusion == c)) [
            | inl same ↦ rw same
            | inr other ↦
                let e = contains-ids_heading c o.derivs i d x.keys found in
                rw other (sym (keep_absent i (ids_heading c o.derivs) (e ∙ other)))
          ]);
  }

-- What the loop over the removed base facts leaves.
pub record Ungrounded (facts : List NodeId) (seeds seeds' : List NodeId) (o o' : Oracle)
    : Type 0 where
  pub derivs : o'.derivs ≡ o.derivs
  pub next_id : o'.next_id ≡ o.next_id
  pub uses : o'.uses ≡ o.uses
  pub heads : o'.heads ≡ o.heads
  pub live : o'.live ≡ o.live
  pub base : (x : NodeId) → contains o'.base x ≡ (not (contains facts x) && contains o.base x)
  pub seeded :
      (x : NodeId)
      → contains facts x ≡ true
      → contains o.live.front.supported x ≡ true
      → contains seeds' x ≡ true
  pub grows : (x : NodeId) → contains seeds x ≡ true → contains seeds' x ≡ true

pub Ungrounded-unground :
    (facts seeds : List NodeId) (o : Oracle)
    → Ungrounded facts seeds (unground facts seeds o).0 o (unground facts seeds o).1
unfolding unground contains
Ungrounded-unground [] seeds o = record {
  derivs = refl;
  next_id = refl;
  uses = refl;
  heads = refl;
  live = refl;
  base = λ x. refl;
  seeded = λ x h. cc;
  grows = λ x h. h;
}
Ungrounded-unground (n ∷ facts) seeds o =
    let seeds' = if contains o.live.front.supported n then n ∷ seeds else seeds in
    let r =
      Ungrounded-unground facts seeds' (record o { base = keep (λ x. not (n == x)) o.base }) in
    record {
      derivs = r.derivs;
      next_id = r.next_id;
      uses = r.uses;
      heads = r.heads;
      live = r.live;
      base = λ x. ground (arith, r.base x, contains-keep (λ x. not (n == x)) o.base x);
      seeded = λ x h sup. elim (Bool-cases (n == x)) [
        | inl same ↦ let e : n ≡ x = ground arith in r.grows x (rw e (rw sup (ground arith)))
        | inr other ↦ r.seeded x (ground arith) sup
      ];
      grows = λ x h. r.grows x (ground arith);
    }

-- What the loop over the removed rules leaves.
pub record Unregistered (removed : List Entry) (seeds seeds' : List NodeId) (o o' : Oracle)
    : Type 0 where
  pub indexed : Indexed o'
  pub base : o'.base ≡ o.base
  pub live : o'.live ≡ o.live
  pub find_left :
      (j : ℕ) → find o'.derivs j ≡ (if contains (ids removed) j then none else find o.derivs j)
  pub seeded :
      (j : ℕ) (e : Derivation)
      → find removed j ≡ some e
      → o.live.front.remaining j ≡ 0
      → contains o.live.front.supported e.conclusion ≡ true
      → contains seeds' e.conclusion ≡ true
  pub grows : (x : NodeId) → contains seeds x ≡ true → contains seeds' x ≡ true
  pub fired_left :
      (c : NodeId)
      → ((j : ℕ) (e : Derivation)
          → find removed j ≡ some e
          → (e.conclusion == c && o.live.front.remaining j == 0) ≡ false)
      → fired o'.derivs o.live.front.remaining c ≡ fired o.derivs o.live.front.remaining c

pub Unregistered-unregister :
    (removed : List Entry) (seeds : List NodeId) (o : Oracle)
    → Distinct (ids removed)
    → ((j : ℕ) (e : Derivation) → find removed j ≡ some e → find o.derivs j ≡ some e)
    → Indexed o
    → Unregistered removed seeds (unregister removed seeds o).0 o (unregister removed seeds o).1
unfolding unregister contains find ids
Unregistered-unregister [] seeds o k within x = record {
  indexed = x;
  base = refl;
  live = refl;
  find_left = λ j. refl;
  seeded = λ j e h. cc;
  grows = λ n h. h;
  fired_left = λ c q. refl;
}
Unregistered-unregister ((i, d) ∷ removed) seeds o k within x =
    let firing = o.live.front.remaining i == 0 && contains o.live.front.supported d.conclusion in
    let found = within i d (ground arith) in
    let r =
      Unregistered-unregister removed (if firing then d.conclusion ∷ seeds else seeds)
        (drop_rule i d o) k.1
        (λ j e h.
          ground (arith, find-remove_entry i o.derivs j, within j e, contains-ids removed j e h))
        (Indexed-drop_rule i d o x found) in
    record {
      indexed = r.indexed;
      base = r.base;
      live = r.live;
      find_left = λ j. ground (arith, r.find_left j, find-remove_entry i o.derivs j);
      seeded = λ j e h z sup. elim (Bool-cases (i == j)) [
        | inl same ↦
            let e' : i ≡ j = ground arith in
            let e'' : d ≡ e = ground arith in
            let z' : o.live.front.remaining i ≡ 0 = rw e' z in
            let sup' : contains o.live.front.supported d.conclusion ≡ true = rw e'' sup in
            r.grows e.conclusion (rw (← e'') (ground arith))
        | inr other ↦ r.seeded j e (ground arith) z sup
      ];
      grows = λ n h. r.grows n (ground arith);
      fired_left = λ c q.
          r.fired_left c (λ j e h. q j e (ground (arith, contains-ids removed j e h)))
          ∙ fired-remove_entry i d o.derivs o.live.front.remaining c x.keys found
              (q i d (ground arith));
    }
