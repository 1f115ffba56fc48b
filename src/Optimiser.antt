-- ===== src/Optimiser.antt =====
-- src/collision_monitor/optimiser.py: the independent validator, the objective and the CP-SAT call.
pub mod Validate
pub mod Validity
pub mod Objective
pub mod Coverage
pub mod Solver
