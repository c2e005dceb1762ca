-- ===== src/TruthMaintenance/Incremental/Insertion.antt =====
-- `IncrementalOracle._insert`.
pub mod Register
pub mod Ground
pub mod Correct
use iknos.Prelude.{
  ℕ, suc, Bool, true, false, ◌&&◌, List, [], ◌∷◌, ◌++◌, contains, sorted, ◌==◌, ltb, if◌then◌else◌,
  unmet_of,
}
use iknos.TruthMaintenance.Graph.{NodeId, Derivation}
use iknos.TruthMaintenance.Entries.{Entry, enumerate}
use iknos.TruthMaintenance.Front.{Front, update}
use iknos.TruthMaintenance.Incremental.State.{Counted, Oracle, credit, run_cascade}

-- `a <= b` on tuples of ids
unfoldable pub lex_leb : List ℕ → List ℕ → Bool
lex_leb [] ys = true
lex_leb (x ∷ xs) [] = false
lex_leb (x ∷ xs) (y ∷ ys) =
    let rest = lex_leb xs ys in if ltb x y then true else if x == y then rest else false

-- `_deriv_sort_key`, and the order that it induces
unfoldable pub deriv_sort_key : Derivation → List ℕ
unfolding sorted
deriv_sort_key d = d.conclusion ∷ sorted d.body

unfoldable pub insert_deriv : Derivation → List Derivation → List Derivation
insert_deriv d [] = d ∷ []
insert_deriv d (e ∷ es) =
    let rest = insert_deriv d es in
    if lex_leb (deriv_sort_key d) (deriv_sort_key e) then d ∷ e ∷ es else e ∷ rest

-- `sorted(derivs, key=_deriv_sort_key)`
unfoldable pub sort_derivs : List Derivation → List Derivation
unfolding insert_deriv lex_leb deriv_sort_key
sort_derivs [] = []
sort_derivs (d ∷ ds) = insert_deriv d (sort_derivs ds)

-- `index[key].add(i)`, on a dict of sets
unfoldable pub add_to : NodeId → ℕ → (NodeId → List ℕ) → NodeId → List ℕ
add_to key i index n =
    if key == n then if contains (index n) i then index n else index n ++ i ∷ [] else index n

-- `for antecedent in body: uses[antecedent].add(i)`
unfoldable pub add_uses : List NodeId → ℕ → (NodeId → List ℕ) → NodeId → List ℕ
unfolding add_to
add_uses [] i index = index
add_uses (a ∷ body) i index = add_uses body i (add_to a i index)

-- one round of the loop that registers the new derivations
unfoldable pub register : List NodeId → ℕ → Derivation → Oracle → Oracle
unfolding add_to add_uses update unmet_of
register baseline i d o =
    let unmet = update o.live.front.remaining i (unmet_of (contains baseline) d.body) in
    record o {
      derivs = o.derivs ++ (i, d) ∷ [];
      next_id = suc i;
      uses = add_uses d.body i o.uses;
      heads = add_to d.conclusion i o.heads;
      live = record o.live { front = record o.live.front { remaining = unmet } };
    }

unfoldable pub register_all : List NodeId → List Entry → Oracle → Oracle
unfolding register
register_all baseline [] o = o
register_all baseline ((i, d) ∷ new) o = register_all baseline new (register baseline i d o)

-- `self._base.add(fact)` and its grounding, for each new base fact
unfoldable pub ground_facts : List NodeId → Oracle → Oracle
unfolding credit
ground_facts [] o = o
ground_facts (n ∷ facts) o =
    ground_facts facts (record o { base = n ∷ o.base; live = credit n o.live })

-- the new derivations that the baseline satisfies fire
unfoldable pub fire_new : List Entry → Counted → Counted
unfolding credit
fire_new [] c = c
fire_new ((i, d) ∷ new) c =
    fire_new new (if c.front.remaining i == 0 then credit d.conclusion c else c)

unfoldable pub insert : List NodeId → List Derivation → Oracle → Oracle
unfolding register_all ground_facts fire_new run_cascade sort_derivs enumerate
insert added_base added_derivs o =
    let new = enumerate o.next_id (sort_derivs added_derivs) in
    let registered = register_all o.live.front.supported new o in
    let grounded = ground_facts (sorted added_base) registered in
    run_cascade (record grounded { live = fire_new new grounded.live })
