-- ===== src/TruthMaintenance/Incremental/State.antt =====
-- The state of `IncrementalOracle` and its `_cascade`.
use iknos.Prelude.{ℕ, zero, suc, ◌+◌, ◌-◌, List, [], ◌∷◌, ◌==◌, if◌then◌else◌, length}
use iknos.TruthMaintenance.Graph.{NodeId}
use iknos.TruthMaintenance.Entries.{Entry, head_of}
use iknos.TruthMaintenance.Front.{Front, update, mark}

-- `_unmet`, `_supported` and the local deque `work` are the front; `_support_count` stands beside.
pub record Counted : Type 0 where
  pub front : Front
  pub open front use *
  pub support_count : NodeId → ℕ

-- `_derivs` and its reverse map `_ids` are one table, read by number and by value. `_uses` and
-- `_heads` are functions: an absent key of a defaultdict is the empty set.
pub record Oracle : Type 0 where
  pub base : List NodeId
  pub derivs : List Entry
  pub next_id : ℕ
  pub uses : NodeId → List ℕ
  pub heads : NodeId → List ℕ
  pub live : Counted

unfoldable pub init : Oracle
init = record {
  base = [];
  derivs = [];
  next_id = 0;
  uses = λ _. [];
  heads = λ _. [];
  live = record {
    front = record { remaining = λ _. 0; supported = []; worklist = [] };
    support_count = λ _. 0;
  };
}

-- A grounding of `n`: `_support_count[n] += 1`, and `n` is supported and queued if it was not.
unfoldable pub credit : NodeId → Counted → Counted
unfolding mark update
credit n c = record {
  front = mark n c.front;
  support_count = update c.support_count n (c.support_count n + 1);
}

-- the body of the inner loop of `_cascade`
unfoldable pub visit : List Entry → ℕ → Counted → Counted
unfolding credit update
visit es i c =
    let left = c.front.remaining i - 1 in
    let front' = record c.front { remaining = update c.front.remaining i left } in
    let c' = record c { front = front' } in if left == 0 then credit (head_of es i) c' else c'

unfoldable pub visit_all : List Entry → List ℕ → Counted → Counted
visit_all es [] c = c
visit_all es (i ∷ is) c = visit_all es is (visit es i c)

-- `while work` on fuel; a queue that is not empty at the end means that the fuel ran out.
unfoldable pub cascade : (NodeId → List ℕ) → List Entry → ℕ → Counted → Counted
cascade uses es zero c = c
cascade uses es (suc fuel) c = elim c.front.worklist [
  | [] ↦ c
  | node ∷ rest ↦
      cascade uses es fuel
        (visit_all es (uses node) (record c { front = record c.front { worklist = rest } }))
]

-- `self._cascade(work)`, with fuel for each queued node and each rule
unfoldable pub run_cascade : Oracle → Oracle
unfolding cascade
run_cascade o =
    let fuel = length o.live.front.worklist + length o.derivs in
    record o { live = cascade o.uses o.derivs fuel o.live }

-- `oracle.support_count(node)`
unfoldable pub support_count : Oracle → NodeId → ℕ
support_count o n = o.live.support_count n
