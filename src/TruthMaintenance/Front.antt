-- ===== src/TruthMaintenance/Front.antt =====
-- The forward propagation that both oracles of core/truth_maintenance.py run: the counters of
-- unmet antecedents, the supported set and the worklist.
pub mod Laws
pub mod Fuel
use iknos.Prelude.{
  ℕ, zero, suc, ◌+◌, ◌-◌, Bool, List, [], ◌∷◌, ◌++◌, contains, ◌==◌, if◌then◌else◌, length,
}
use iknos.TruthMaintenance.Graph.{NodeId}
use iknos.TruthMaintenance.Entries.{Entry, head_of, ids_using}

pub record Front : Type 0 where
  pub remaining : ℕ → ℕ
  pub supported : List NodeId
  pub worklist : List NodeId

-- `counts[i] = v`
unfoldable pub update : (ℕ → ℕ) → ℕ → ℕ → ℕ → ℕ
update counts i v j = if i == j then v else counts j

-- `mark(node)`: a node becomes supported at most once, and is queued then.
unfoldable pub mark : NodeId → Front → Front
mark n f =
    if contains f.supported n
    then f
    else record f { supported = n ∷ f.supported; worklist = f.worklist ++ n ∷ [] }

-- The body of the loop over `uses[node]`. A counter is positive when it is decremented.
unfoldable pub revisit : List Entry → ℕ → Front → Front
unfolding update mark
revisit es i f =
    let left = f.remaining i - 1 in
    let f' = record f { remaining = update f.remaining i left } in
    if left == 0 then mark (head_of es i) f' else f'

unfoldable pub revisit_all : List Entry → List ℕ → Front → Front
revisit_all es [] f = f
revisit_all es (i ∷ is) f = revisit_all es is (revisit es i f)

-- one round of `while worklist`, after `node` left the queue
unfoldable pub expand : List Entry → NodeId → List NodeId → Front → Front
unfolding revisit_all
expand es node rest f = revisit_all es (ids_using node es) (record f { worklist = rest })

-- `while worklist`, on fuel; a queue that is not empty at the end means that the fuel ran out.
unfoldable pub propagate : List Entry → ℕ → Front → Front
propagate es zero f = f
propagate es (suc fuel) f = elim f.worklist [
  | [] ↦ f
  | node ∷ rest ↦ propagate es fuel (expand es node rest f)
]
