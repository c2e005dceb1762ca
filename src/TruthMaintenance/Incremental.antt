-- ===== src/TruthMaintenance/Incremental.antt =====
-- `IncrementalOracle` of core/truth_maintenance.py: the state and its cascade, the insertion, the
-- deletion (delete and rederive), and the diff of one graph snapshot against the last.
pub mod State
pub mod Insertion
pub mod Deletion
pub mod Apply
pub mod Cascade
pub mod Stable
pub mod Credit
