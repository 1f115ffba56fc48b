-- ===== src/Priority.antt =====
-- src/collision_monitor/priority.py: integer scores whose first component is throughput.
mod Score
pub mod Urgency
pub mod Throughput
unfoldable pub use Score.*
