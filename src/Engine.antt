-- ===== src/Engine.antt =====
-- src/collision_monitor/engine.py: one tick of the decision policy, from snapshots to actions.
pub mod Codes
pub mod Validation
pub mod Solving
pub mod Decide
pub mod Safety
pub mod Decided
pub mod Commands
pub mod Override
pub mod Transaction
