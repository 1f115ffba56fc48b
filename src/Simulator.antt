-- ===== src/Simulator.antt =====
-- src/collision_monitor/simulator: robots that follow the monitor's actions along fixed paths.
pub mod Robot
pub mod Journey
pub mod Scenario
pub mod Limits
pub mod Memory
