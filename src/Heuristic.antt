-- ===== src/Heuristic.antt =====
-- src/collision_monitor/heuristic.py: greedy unit propagation over binary no-good clauses, with
-- one bounded repair pass.
pub mod Clause
pub mod Propagate
pub mod Greedy
pub mod Clauses
pub mod Solve
