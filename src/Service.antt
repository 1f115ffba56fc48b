-- ===== src/Service.antt =====
-- src/collision_monitor/service.py: ingestion of states, the tick, and the publication of actions.
pub mod Publish
pub mod Retry
pub mod Ingest
pub mod Tick
pub mod Settlement
pub mod Actions
