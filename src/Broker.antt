-- ===== src/Broker.antt =====
-- packages/core/src/broker.ts and registry.ts: presence, routing and fan-out of messages.
pub mod Pool
pub mod Delivery
pub mod Fanout
pub mod Serial
pub mod Registry
pub mod Push
pub mod Recipients
pub mod Reach
pub mod Lookup
pub mod Change
pub mod History
pub mod Report
mod Tests
