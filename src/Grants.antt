-- ===== src/Grants.antt =====
-- src/collision_monitor/grants.py: right-of-way grants, waiting ages and the grant manager's tick.
--
-- The manager's attributes are the fields of `GrantManager`, which every operation takes and
-- returns. An operation that may raise gives the state beside its result, since the source keeps
-- what it changed before the exception.
pub mod State
pub mod Lifecycle
pub mod Group
pub mod Completion
pub mod Repair
pub mod Acquire
pub mod Tick
pub mod Invariant
pub mod Protocol
