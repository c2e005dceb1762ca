-- ===== src/TruthMaintenance.antt =====
-- core/truth_maintenance.py, Layer A: the derivation graph, the full recompute and the
-- incremental oracle.
pub mod Graph
pub mod Entries
pub mod Founded
pub mod Front
pub mod Recompute
pub mod Incremental
mod Tests
