-- ===== src/TruthMaintenance/Founded.antt =====
-- Support in a table of rules, and how it changes with the table.
use iknos.Prelude.{ℕ, ◌≡◌, Bool, true, List, some, contains}
use iknos.TruthMaintenance.Graph.{NodeId, Derivation, InRules, Supported, fact, derived}
use iknos.TruthMaintenance.Entries.{Entry, find, find-InRules, rules}

-- a property of nodes that the rules of the table pass on
abbrev pub Rule : List Entry → (NodeId → Type 0) → Type 0
Rule es P =
    (i : ℕ) (d : Derivation)
    → find es i ≡ some d
    → ((a : NodeId) → contains d.body a ≡ true → P a)
    → P d.conclusion

abbrev pub Founded : List Entry → List NodeId → NodeId → Type 0
Founded es base = Supported (contains base) (rules es)

pub founded_rule : (es : List Entry) (base : List NodeId) → Rule es (Founded es base)
founded_rule es base i d found body = derived d (find-InRules es i d found) body

-- More base facts and more rules support no less.
pub Supported-mono :
    {b b' : NodeId → Bool} {ds ds' : List Derivation} {x : NodeId}
    → ((n : NodeId) → b n ≡ true → b' n ≡ true)
    → ((d : Derivation) → InRules d ds → InRules d ds')
    → Supported b ds x
    → Supported b' ds' x
Supported-mono f g (fact h) = fact (f _ h)
Supported-mono f g (derived d m body) = derived d (g d m) (λ a h. Supported-mono f g (body a h))
