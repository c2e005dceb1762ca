-- ===== src/TruthMaintenance/Front/Laws.antt =====
-- What the forward propagation keeps: each counter is the number of antecedents not yet
-- delivered, and all that is supported is so by the rules.
use iknos.Prelude.{
  ℕ, ◌+◌, ◌-◌, ◌≡◌, Bool, true, false, ◌||◌, inl, inr, List, [], ◌∷◌, some, arith, contains,
  contains-append, append-Distinct, Distinct, ◌==◌, Bool-cases, one_if, unmet_of, unmet_of_zero,
  unmet_of_step,
}
use iknos.TruthMaintenance.Graph.{NodeId, Derivation}
use iknos.TruthMaintenance.Entries.{
  Entry, find, head_of, ids, ids_using, ids_using-Distinct, find-ids_using, contains-ids_using,
}
use iknos.TruthMaintenance.Front.{Front, update, mark, revisit, revisit_all, expand}

pub head_of-find :
    (es : List Entry) (i : ℕ) (d : Derivation) → find es i ≡ some d → head_of es i ≡ d.conclusion
unfolding head_of
head_of-find es i d h = rw h

-- `P` is any property of nodes that the rules pass on.
module _ (es : List Entry) (keys : Distinct (ids es)) (P : NodeId → Type 0)
    (rule : (i : ℕ) (d : Derivation)
      → find es i ≡ some d
      → ((a : NodeId) → contains d.body a ≡ true → P a)
      → P d.conclusion) where
  -- `delivered` are the nodes that left the queue, `todo` the rules that the current round still
  -- has to revisit.
  pub record Inv (delivered : NodeId → Bool) (todo : List ℕ) (f : Front) : Type 0 where
    pub splits : (x : NodeId) → contains f.supported x ≡ (delivered x || contains f.worklist x)
    pub apart : (x : NodeId) → contains f.worklist x ≡ true → delivered x ≡ false
    pub fresh : Distinct f.worklist
    pub counts :
        (i : ℕ) (d : Derivation)
        → find es i ≡ some d
        → f.remaining i ≡ unmet_of delivered d.body + one_if (contains todo i)
    pub sound : (x : NodeId) → contains f.supported x ≡ true → P x

  -- a rule whose counter is at zero has fired
  abbrev pub Closed : Front → Type 0
  Closed f =
      (i : ℕ) (d : Derivation)
      → find es i ≡ some d
      → f.remaining i ≡ 0
      → contains f.supported d.conclusion ≡ true

  module _ (delivered : NodeId → Bool) where
    pub Inv-mark :
        (todo : List ℕ) (n : NodeId) (f : Front)
        → P n
        → Inv delivered todo f
        → Inv delivered todo (mark n f)
    unfolding mark contains
    Inv-mark todo n f p v = elim (Bool-cases (contains f.supported n)) [
      | inl old ↦ rw old v
      | inr new ↦ rw new (record {
        splits = λ x. ground (arith, v.splits x, contains-append f.worklist (n ∷ []) x);
        apart = λ x m. ground (arith, v.splits x, v.apart x, contains-append f.worklist (n ∷ []) x);
        fresh = append-Distinct f.worklist n v.fresh (ground (arith, v.splits n));
        counts = v.counts;
        sound = λ x m. elim (Bool-cases (n == x)) [
          | inl same ↦ let e : n ≡ x = ground arith in rw (← e) p
          | inr other ↦ v.sound x (ground arith)
        ];
      })
    ]

    lower :
        (i : ℕ) (todo : List ℕ) (f : Front)
        → contains todo i ≡ false
        → Inv delivered (i ∷ todo) f
        → Inv delivered todo (record f { remaining = update f.remaining i (f.remaining i - 1) })
    unfolding update contains
    lower i todo f once v = record {
      splits = v.splits;
      apart = v.apart;
      fresh = v.fresh;
      counts = λ j e found. elim (Bool-cases (i == j)) [
        | inl same ↦ let e' : i ≡ j = ground arith in ground (arith, v.counts j e found)
        | inr other ↦ ground (arith, v.counts j e found)
      ];
      sound = v.sound;
    }

    -- when the counter reaches zero, every antecedent was delivered
    met :
        (i : ℕ) (todo : List ℕ) (d : Derivation) (f : Front)
        → find es i ≡ some d
        → (f.remaining i - 1 == 0) ≡ true
        → Inv delivered (i ∷ todo) f
        → (a : NodeId) → contains d.body a ≡ true
        → P a
    unfolding contains
    met i todo d f found last v a m =
        let reached = unmet_of_zero delivered d.body a (ground (arith, v.counts i d found)) m in
        v.sound a (ground (arith, v.splits a))

    -- A round's visit of one rule: `i` leaves the list of those still to revisit.
    pub Inv-revisit :
        (i : ℕ) (todo : List ℕ) (d : Derivation) (f : Front)
        → find es i ≡ some d
        → contains todo i ≡ false
        → Inv delivered (i ∷ todo) f
        → Inv delivered todo (revisit es i f)
    unfolding revisit
    Inv-revisit i todo d f found once v = elim (Bool-cases (f.remaining i - 1 == 0)) [
      | inl last ↦
          rw (last, head_of-find es i d found)
            (Inv-mark todo d.conclusion _ (rule i d found (met i todo d f found last v))
              (lower i todo f once v))
      | inr more ↦ rw more (lower i todo f once v)
    ]

    pub Closed-revisit :
        (i : ℕ) (todo : List ℕ) (d : Derivation) (f : Front)
        → find es i ≡ some d
        → Inv delivered (i ∷ todo) f
        → Closed f
        → Closed (revisit es i f)
    unfolding revisit update mark contains
    Closed-revisit i todo d f found v c j e at z = elim (Bool-cases (i == j)) [
      | inl same ↦
          let e' : i ≡ j = ground arith in
          let at_i : find es i ≡ some e = rw e' at in ground (arith, head_of-find es i d found)
      | inr other ↦ ground (arith, c j e at)
    ]

    pub Inv-revisit_all :
        (todo : List ℕ) (f : Front)
        → Distinct todo
        → ((i : ℕ) → contains todo i ≡ true → (d : Derivation) × (find es i ≡ some d))
        → Inv delivered todo f
        → Closed f
        → Inv delivered [] (revisit_all es todo f) × Closed (revisit_all es todo f)
    unfolding revisit_all contains
    Inv-revisit_all [] f k known v c = (v, c)
    Inv-revisit_all (i ∷ todo) f k known v c =
        let (d, found) = known i (ground arith) in
        Inv-revisit_all todo (revisit es i f) k.1 (λ j m. known j (ground arith))
          (Inv-revisit i todo d f found k.0 v) (Closed-revisit i todo d f found v c)

  -- A node leaves the queue, and the rules that use it are still to be revisited.
  pub Inv-popped :
      (delivered : NodeId → Bool) (node : NodeId) (rest : List NodeId) (f : Front)
      → f.worklist ≡ node ∷ rest
      → Inv delivered [] f
      → Inv (λ x. delivered x || node == x) (ids_using node es) (record f { worklist = rest })
  unfolding contains
  Inv-popped delivered node rest f queue v = record {
    splits = λ x. ground (arith, v.splits x, queued x);
    apart = λ x m. elim (Bool-cases (node == x)) [
      | inl same ↦ let e : node ≡ x = ground arith in let u = unique.0 in ground arith
      | inr other ↦ ground (arith, v.apart x, queued x)
    ];
    fresh = unique.1;
    counts = λ i d found. ground (
      arith,
      v.counts i d found,
      unmet_of_step delivered node apart_node d.body,
      contains-ids_using node es i d keys found,
    );
    sound = v.sound;
  }
    where
      queued : (x : NodeId) → contains f.worklist x ≡ (node == x || contains rest x)
      queued x = rw queue

      apart_node : delivered node ≡ false
      apart_node = v.apart node (ground (arith, queued node))

      unique : Distinct (node ∷ rest)
      unique = rw queue at v.fresh

  -- One round of the loop keeps the invariant, with `node` delivered.
  pub Inv-expand :
      (delivered : NodeId → Bool) (node : NodeId) (rest : List NodeId) (f : Front)
      → f.worklist ≡ node ∷ rest
      → Inv delivered [] f
      → Closed f
      → Inv (λ x. delivered x || node == x) [] (expand es node rest f)
        × Closed (expand es node rest f)
  unfolding expand
  Inv-expand delivered node rest f queue v c =
      Inv-revisit_all (λ x. delivered x || node == x) (ids_using node es)
        (record f { worklist = rest }) (ids_using-Distinct node es keys) (find-ids_using node es)
        (Inv-popped delivered node rest f queue v) c
