-- ===== src/Transport.antt =====
-- src/collision_monitor/transport: what the service exchanges with a broker, and the adapters that
-- keep everything in memory. An asynchronous call is a function of the adapter's state; the event
-- that wakes a waiting test has no counterpart.
pub mod Message
pub mod Memory
