-- ===== src/Confidence/Least.antt =====
-- `valuate` of core/confidence.py returns the least solution.
use iknos.Prelude.{
  ℕ, zero, suc, ◌≡◌, ◌+◌, ◌↔◌, sym, ap, true, Option, none, some, List, length, map, contains,
  arith,
}
use iknos.TruthMaintenance.Graph.{NodeId}
use iknos.Confidence.{Valuation, valued, nodes, valuate}
use iknos.Confidence.Laws.{Laws, ≼_trans}
use iknos.Confidence.Rounds.{valued_mono}
use iknos.Confidence.Ascent.{after, Settled, rounds-Settled}

module _ {V : Type 0} (call : Valuation V) where
  -- a mapping with a value for each supported node and no other
  abbrev pub table : (NodeId → V) → List (NodeId × V)
  table conf = map (λ n. (n, conf n)) (nodes call)

  pub record Solves (conf : NodeId → V) : Type 0 where
    pub fixed : (n : NodeId) → contains call.supported n ≡ true → conf n ≡ valued call conf n
    pub least :
        (g : NodeId → V)
        → ((n : NodeId)
            → contains call.supported n ≡ true
            → call.semiring.plus (valued call g n) (g n) ≡ g n)
        → (n : NodeId) → contains call.supported n ≡ true
        → call.semiring.plus (conf n) (g n) ≡ g n

  module _ (laws : Laws call.semiring) (exact : (a b : V) → (call.same a b ≡ true) ↔ (a ≡ b)) where
    after_least :
        (g : NodeId → V)
        → ((n : NodeId)
            → contains call.supported n ≡ true
            → call.semiring.plus (valued call g n) (g n) ≡ g n)
        → (k : ℕ) (n : NodeId) → contains call.supported n ≡ true
        → call.semiring.plus (after call laws exact k n) (g n) ≡ g n
    unfolding after
    after_least g closed zero n m = laws.plus_zero (g n)
    after_least g closed (suc k) n m =
        ≼_trans laws (valued call (after call laws exact k) n) (valued call g n) (g n)
          (valued_mono call laws (after call laws exact k) g
            (λ a known. after_least g closed k a known) n)
          (closed n m)

    pub valuate-after :
        (k : ℕ) × (valuate call ≡ some (table (after call laws exact k)))
        × Settled call laws exact k
    unfolding valuate after
    valuate-after =
        let (k, e, settled) =
          rounds-Settled call laws exact (length (nodes call) + 2) 0 (omega arith) (omega arith) in
        (
          k,
          ap (λ (r : Option (NodeId → V)). elim r [ none ↦ none | some conf ↦ some (table conf) ])
              e,
          settled,
        )

    -- Over any lawful semiring `valuate` returns, whatever cycles the graph has: its mapping has the
    -- supported nodes and no other, each at the best of its grounds, and is the least such mapping.
    pub valuate-Solves : (conf : NodeId → V) × (valuate call ≡ some (table conf)) × Solves conf
    unfolding after
    valuate-Solves =
        let (k, e, settled) = valuate-after in
        (
          after call laws exact k,
          e,
          record {
            fixed = λ n m. sym (settled n m);
            least = λ g closed n m. after_least g closed k n m;
          },
        )
