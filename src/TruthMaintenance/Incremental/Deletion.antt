-- ===== src/TruthMaintenance/Incremental/Deletion.antt =====
-- `IncrementalOracle._delete`: unregister, over-delete, unsupport, rederive.
pub mod Unregister
pub mod Over
pub mod Unsupport
pub mod Reground
pub mod Correct
use iknos.Prelude.{
  ℕ, zero, suc, ◌+◌, Bool, true, false, not, ◌&&◌, Option, none, some, List, [], ◌∷◌, ◌++◌,
  contains, keep, minus, distinct, sorted, ◌==◌, if◌then◌else◌, unmet_of, length,
}
use iknos.TruthMaintenance.Graph.{NodeId, Derivation}
use iknos.TruthMaintenance.Entries.{Entry, find, head_of}
use iknos.TruthMaintenance.Entries.Remove.{remove_entry}
use iknos.TruthMaintenance.Front.{Front, update}
use iknos.TruthMaintenance.Incremental.State.{Counted, Oracle, credit, run_cascade}

-- `index[key].discard(i)`
unfoldable pub discard_from : NodeId → ℕ → (NodeId → List ℕ) → NodeId → List ℕ
unfolding keep
discard_from key i index n = if key == n then keep (λ j. not (i == j)) (index n) else index n

unfoldable pub discard_uses : List NodeId → ℕ → (NodeId → List ℕ) → NodeId → List ℕ
unfolding discard_from
discard_uses [] i index = index
discard_uses (a ∷ body) i index = discard_uses body i (discard_from a i index)

-- the loop over `removed_base`, with its seeds
unfoldable pub unground : List NodeId → List NodeId → Oracle → List NodeId × Oracle
unfolding keep
unground [] seeds o = (seeds, o)
unground (n ∷ facts) seeds o =
    unground facts (if contains o.live.front.supported n then n ∷ seeds else seeds)
      (record o { base = keep (λ x. not (n == x)) o.base })

-- The loop over `removed_derivs`. The counter of a removed rule is never read again, since numbers
-- are not given twice, so `_unmet.pop(i)` only reads it.
unfoldable pub unregister : List Entry → List NodeId → Oracle → List NodeId × Oracle
unfolding discard_from discard_uses remove_entry
unregister [] seeds o = (seeds, o)
unregister ((i, d) ∷ removed) seeds o =
    let firing = o.live.front.remaining i == 0 && contains o.live.front.supported d.conclusion in
    unregister removed (if firing then d.conclusion ∷ seeds else seeds) (record o {
      derivs = remove_entry i o.derivs;
      uses = discard_uses d.body i o.uses;
      heads = discard_from d.conclusion i o.heads;
    })

-- `for i in uses[node]`: push the heads that are supported and not yet over-deleted
unfoldable pub push_heads :
    List Entry → List NodeId → List NodeId → List ℕ → List NodeId → List NodeId
push_heads es supported over [] stack = stack
push_heads es supported over (i ∷ is) stack =
    let head = head_of es i in
    push_heads es supported over is
      (if contains supported head && not (contains over head) then head ∷ stack else stack)

-- `while stack`, on fuel. The pair is the over-deleted set and what is left of the stack.
unfoldable pub over_delete :
    List Entry
    → (NodeId → List ℕ)
    → List NodeId
    → ℕ
    → List NodeId
    → List NodeId
    → List NodeId × List NodeId
unfolding push_heads
over_delete es uses supported zero over stack = (over, stack)
over_delete es uses supported (suc fuel) over [] = (over, [])
over_delete es uses supported (suc fuel) over (node ∷ stack) = elim (contains over node) [
  | true ↦ over_delete es uses supported fuel over stack
  | false ↦
      over_delete es uses supported fuel (node ∷ over)
        (push_heads es supported (node ∷ over) (uses node) stack)
]

-- the antecedents of all rules: the fuel that the over-deletion needs beside its seeds
unfoldable pub body_total : List Entry → List NodeId → ℕ
unfolding unmet_of
body_total [] over = 0
body_total ((i, d) ∷ es) over = unmet_of (contains over) d.body + body_total es over

-- `self._support_count[node] = 0` for each over-deleted node
unfoldable pub zero_counts : List NodeId → (NodeId → ℕ) → NodeId → ℕ
unfolding update
zero_counts [] counts = counts
zero_counts (n ∷ ns) counts = zero_counts ns (update counts n 0)

-- `affected`: the rules that use an over-deleted node
unfoldable pub affected : (NodeId → List ℕ) → List NodeId → List ℕ
affected uses [] = []
affected uses (n ∷ ns) = uses n ++ affected uses ns

abbrev body_of : Option Derivation → List NodeId
body_of none = []
body_of (some d) = d.body

-- `self._unmet[i] = sum(1 for a in body if a not in self._supported)`
unfoldable pub refresh : List Entry → List NodeId → List ℕ → (ℕ → ℕ) → ℕ → ℕ
unfolding update unmet_of find
refresh es supported [] unmet = unmet
refresh es supported (i ∷ is) unmet =
    refresh es supported is (update unmet i (unmet_of (contains supported) (body_of (find es i))))

-- the groundings of one node by rules that the survivors satisfy
unfoldable pub reground_heads : NodeId → List ℕ → Counted → Counted
unfolding credit
reground_heads n [] c = c
reground_heads n (i ∷ is) c =
    reground_heads n is (if c.front.remaining i == 0 then credit n c else c)

-- the loop over `sorted(over_deleted)` that seeds the rederivation
unfoldable pub reground : (NodeId → List ℕ) → List NodeId → List NodeId → Counted → Counted
unfolding reground_heads
reground heads base [] c = c
reground heads base (n ∷ ns) c =
    reground heads base ns (reground_heads n (heads n) (if contains base n then credit n c else c))

-- step 3 of `_delete`: unsupport the over-deleted nodes and recompute the counters
unfoldable pub unsupport : List NodeId → Oracle → Counted
unfolding minus zero_counts refresh affected
unsupport over o =
    let kept = minus o.live.front.supported over in
    record {
      front = record {
        remaining = refresh o.derivs kept (affected o.uses over) o.live.front.remaining;
        supported = kept;
        worklist = [];
      };
      support_count = zero_counts over o.live.support_count;
    }

unfoldable pub delete : List NodeId → List Entry → Oracle → Oracle
unfolding distinct unground unregister over_delete body_total unsupport reground run_cascade sorted
delete removed_base removed_derivs o =
    let (fact_seeds, ungrounded) = unground removed_base [] o in
    let (seeds, o') = unregister removed_derivs fact_seeds ungrounded in
    let supported = o'.live.front.supported in
    let stack = keep (contains supported) (distinct seeds) in
    let fuel = length stack + body_total o'.derivs [] in
    let over = (over_delete o'.derivs o'.uses supported fuel [] stack).0 in
    run_cascade (record o' { live = reground o'.heads o'.base (sorted over) (unsupport over o') })
