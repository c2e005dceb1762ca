-- ===== src/SymbolicGate.antt =====
-- core/symbolic_gate.py: the symbolic channel, over the answer-set solver that the check calls.
-- The solver is a parameter, `_solve` of a list of asserted literals and a list of rules.
pub mod Interning
pub mod Conflicts
pub mod Meaning
pub mod Verdict
mod Tests
use iknos.Prelude.{
  ℕ, zero, suc, ◌+◌, Bool, true, false, not, ◌||◌, List, [], ◌∷◌, ◌++◌, contains, length, ◌==◌,
  if◌then◌else◌, any,
}
use iknos.EnsembleGate.{
  GateChannel, symbolic, ChannelSignal, affirming, dissenting, abstaining, Detail, text,
}

-- A claim key is an opaque string there, compared only: here a number.
pub record Atom : Type 0 where
  pub key : ℕ
  pub positive : Bool

abbrev pub negated : Atom → Atom
negated a = record { key = a.key; positive = not a.positive }

pub record Rule : Type 0 where
  pub head : Atom
  pub body : List Atom

pub record SymbolicQuery : Type 0 where
  pub hypothesis : List Atom
  pub refuter : List Atom
  pub context : List Atom
  pub rules : List Rule

pub data Consistency : Type 0 where
  contradictory consistent unrelated indeterminate : Consistency

-- `_Lit`: the token `t` is the polarity `true`
pub record Lit : Type 0 where
  pub aid : ℕ
  pub pol : Bool

abbrev pub LitRule : Type 0
LitRule = Lit × List Lit

-- `_Interner`: the keys in the order in which they got their ids, so that an id is a position
abbrev pub Interner : Type 0
Interner = List ℕ

unfoldable pub position : ℕ → Interner → ℕ
position k [] = 0
position k (j ∷ js) = let rest = position k js in if j == k then 0 else suc rest

-- `lit`, with its `setdefault`
unfoldable pub intern : Atom → Interner → Interner × Lit
unfolding position contains
intern a ids = (
  if contains ids a.key then ids else ids ++ a.key ∷ [],
  record { aid = position a.key ids; pol = a.positive },
)

unfoldable pub intern_all : List Atom → Interner → Interner × List Lit
unfolding intern
intern_all [] ids = (ids, [])
intern_all (a ∷ others) ids =
    let (ids', lit) = intern a ids in
    let (ids'', lits) = intern_all others ids' in (ids'', lit ∷ lits)

unfoldable pub intern_rules : List Rule → Interner → Interner × List LitRule
unfolding intern intern_all
intern_rules [] ids = (ids, [])
intern_rules (r ∷ rs) ids =
    let (with_head, head) = intern r.head ids in
    let (with_body, body) = intern_all r.body with_head in
    let (final, rules) = intern_rules rs with_body in (final, (head, body) ∷ rules)

-- what the check asks the solver of a query: the literals of the sub-region, its rules, and the
-- literals of the refuter, and which keys the sub-region has
pub record Encoded : Type 0 where
  pub base_lits : List Lit
  pub rule_lits : List LitRule
  pub refuter_lits : List Lit
  pub related : Bool

unfoldable pub encode : SymbolicQuery → Encoded
unfolding intern_all intern_rules contains
encode q =
    let (with_base, base) = intern_all (q.hypothesis ++ q.context) [] in
    let (ids, rules) = intern_rules q.rules with_base in
    record {
      base_lits = base;
      rule_lits = rules;
      refuter_lits = (intern_all q.refuter ids).1;
      related = any (λ a. contains ids a.key) q.refuter;
    }

-- the text that goes with a verdict
abbrev pub audit : Consistency → Detail
audit contradictory = text (0 ∷ [])
audit consistent = text (1 ∷ [])
audit unrelated = text (2 ∷ [])
audit indeterminate = text (3 ∷ [])

-- `_VERDICT_STANCE`
abbrev pub verdict_signal : Consistency → Detail → ChannelSignal
verdict_signal contradictory d = affirming symbolic d
verdict_signal consistent d = dissenting symbolic d
verdict_signal unrelated d = abstaining symbolic d
verdict_signal indeterminate d = abstaining symbolic d

module _ (satisfiable : List Lit → List LitRule → Bool) where
  abbrev attribute : Encoded → Consistency
  attribute e =
      if satisfiable (e.base_lits ++ e.refuter_lits) e.rule_lits then consistent else contradictory

  unfoldable pub check_consistency : SymbolicQuery → Consistency
  unfolding encode
  check_consistency q =
      let e = encode q in
      if not (satisfiable e.base_lits e.rule_lits)
      then indeterminate
      else if not e.related
      then unrelated
      else attribute e

  unfoldable pub symbolic_channel_for : SymbolicQuery → ChannelSignal
  unfolding check_consistency
  symbolic_channel_for q =
      let verdict = check_consistency q in verdict_signal verdict (audit verdict)
