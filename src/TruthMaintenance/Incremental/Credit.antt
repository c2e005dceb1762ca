-- ===== src/TruthMaintenance/Incremental/Credit.antt =====
-- One grounding of one node.
use iknos.Prelude.{
  ◌+◌, ◌≡◌, Bool, true, List, [], arith, contains, Distinct, ◌==◌, if◌then◌else◌, one_if,
}
use iknos.TruthMaintenance.Graph.{NodeId}
use iknos.TruthMaintenance.Entries.{Entry, ids}
use iknos.TruthMaintenance.Founded.{Rule}
use iknos.TruthMaintenance.Front.{mark, update}
use iknos.TruthMaintenance.Front.Laws.{Inv, Inv-mark}
use iknos.TruthMaintenance.Incremental.State.{Counted, credit}

module _ (n : NodeId) (c : Counted) where
  pub credit-support_count :
      (x : NodeId) → (credit n c).support_count x ≡ one_if (n == x) + c.support_count x
  unfolding credit update
  credit-support_count x = ground arith

  pub credit-remaining : (credit n c).front.remaining ≡ c.front.remaining
  unfolding credit mark
  credit-remaining = ground arith

  pub credit-supported :
      (x : NodeId)
      → contains (credit n c).front.supported x
        ≡ (if n == x then true else contains c.front.supported x)
  unfolding credit mark contains
  credit-supported x = ground arith

module _ (es : List Entry) (keys : Distinct (ids es)) (P : NodeId → Type 0) (rule : Rule es P)
    (delivered : NodeId → Bool) where
  pub Inv-credit :
      (n : NodeId) (c : Counted)
      → P n
      → Inv es keys P rule delivered [] c.front
      → Inv es keys P rule delivered [] (credit n c).front
  unfolding credit
  Inv-credit n c p v = Inv-mark es keys P rule delivered [] n c.front p v
