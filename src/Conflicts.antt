-- ===== src/Conflicts.antt =====
-- src/collision_monitor/conflicts.py: pairwise compatibility, no-good clauses and the conflict graph.
pub mod Pairs
pub mod Model
pub mod Graph
pub mod Build
