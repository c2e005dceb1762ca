-- ===== src/Lib.antt =====
-- Iknos: the pure reasoning core.
--
-- Iknos ingests documents into a graph of claims and reasons over it. Its core is a set of engines
-- without input or output: Layer A decides which nodes of the derivation graph are supported, the
-- argumentation engine computes how acceptable a hypothesis is, the ensemble gate decides whether a
-- computed refutation may be kept, the quarantine keeps doubtful claims from strong moves, and the
-- composed loop runs such passes to a fixpoint or reports an unstable region.
--
-- Prelude: Boolean tests on the native numbers, lists, finite sets of ids as lists, counters, the
--   pigeonhole principle and the integers. A node id, an argument id, a compartment tag and a reason
--   text are opaque strings in the program, compared and sorted only: here they are numbers.
-- TruthMaintenance: src/iknos/core/truth_maintenance.py. Graph has `Derivation` and
--   `DerivationGraph`, and the specification `Supported`. Front is the forward propagation
--   (`mark` and the worklist loop), Recompute is `well_founded_support`. Incremental is
--   `IncrementalOracle`: State has its fields, `_cascade` and `support_count`, Insertion is
--   `_insert`, Deletion is `_delete`, Apply is `apply`. `_derivs` and its reverse map `_ids` are one
--   table. A queue loop runs on fuel: the length of the queue and the number of rules, since a rule
--   queues its conclusion at most once; the over-deletion on the length of the stack and the sum
--   of the bodies, since a node is over-deleted once and then pushes the heads of its rules.
-- ComposedLoop: src/iknos/core/composed_loop.py, `stabilize`, over any type of states and of keys.
--   The loop is recursion on the bound.
-- EnsembleGate: src/iknos/core/ensemble_gate.py. The dict of signals is a function of the channel,
--   an audit text is a value that says what the text says. Panel has the channel producers,
--   `authorise_from_panel` and `authorised_hypotheses`.
-- Epistemic: src/iknos/types/epistemic.py, src/iknos/core/quarantine.py and, of
--   src/iknos/core/proposition.py, `_with_faithfulness_reason`. A float on [0, 1] is a
--   number of millionths, which hold the products of the factors exactly; rounding of floats is not
--   modelled.
-- Credibility: src/iknos/core/credibility.py, `interest_modifier` and `effective_credibility`, in exact
--   decimals.
-- Confidence: src/iknos/core/confidence.py, `valuate` over any semiring with the laws that the source
--   requires, and `GODEL` on millionths. The loop is recursion on the number of nodes and two: a
--   round that improves a node after as many rounds as there are nodes cannot be.
-- SubjectiveLogic: src/iknos/core/subjective_logic.py, on exact fractions: the masses of an opinion are
--   numerators over one total. The tolerance is that of the source. Opinions has the predicate `IsWhole`,
--   which is narrower than the check of the source; Pipeline has the opinions that the operations
--   make of evidence.
-- DomainPack: src/iknos/domain/pack.py, the check of a pack and its closure. Kahn's loop runs on as many
--   turns as there are keys, the search of the closure on twice the number of relations, since a
--   key is queued once.
-- DerivationAdapter: src/iknos/core/derivation_adapter.py, `assemble_subgraph` and
--   `support_and_confidence`.
-- QbafAdapter: src/iknos/core/qbaf_adapter.py, `assemble_baf`, `adjudicate` and `persist_verdicts`, which
--   writes to the hypothesis nodes as a function of their id.
-- RevisionLoop: src/iknos/core/revision_loop.py. `adjudicate_at` composes the layers, the adjudication
--   and the gate's decisions, `run` drives it with `stabilize`, and `commit_run` is what a run
--   writes. An exception of a pass is carried as a state of its own, which ends the loop.
-- Resolve: src/iknos/core/resolve.py, `components` and `anchored_components`. The
--   dict of the union-find is the list of its keys and
--   a function; a search for a root has as much fuel as there are keys, which is enough since the
--   way to a root meets no key twice; so has the compression, which ends by its own test.
-- Intentional: src/iknos/types/intentional.py, `band`.
-- Governance: src/iknos/types/governance.py, `Sensitivity` with `lub` and `flatten`.
-- Qbaf: src/iknos/core/qbaf.py. `solve` is over an abstract arithmetic of strengths and an abstract
--   gradual semantics, rounding included. DfQuad is the combination of the default semantics.
-- SymbolicGate: src/iknos/core/symbolic_gate.py. The interner is the list of keys in the order of their
--   ids; the solver that `_solve` calls is a parameter, and what its documentation promises of a
--   Horn program is the hypothesis `Answers`. Conflicts says what a query means, on its claims
--   themselves, and Meaning that the encoded program means the same.
--
-- An exception is `none` of an option. Not modelled: the queries of the database, the clients of
-- language models and of embeddings, parsing and ingestion, the aggregates of the two concrete
-- gradual semantics, the content hash and the loader of a pack, the JSON text of stored lists, the
-- Viterbi semiring on floats, and
-- the other engines (the scoring of pairs to resolve, reuse, consistency, part-whole, trials).
pub mod ComposedLoop
pub mod Confidence
pub mod Credibility
pub mod DerivationAdapter
pub mod DomainPack
pub mod EnsembleGate
pub mod Epistemic
pub mod Governance
pub mod Intentional
pub mod Prelude
pub mod Qbaf
pub mod QbafAdapter
pub mod Resolve
pub mod RevisionLoop
pub mod SubjectiveLogic
pub mod SymbolicGate
pub mod TruthMaintenance
