-- ===== src/EventLog.antt =====
-- packages/core/src/event-log.ts and apps/server/src/sqlite-event-log.ts: the log of messages, as
-- an interface with two implementations.
pub mod Types
pub mod Matching
pub mod Memory
pub mod Sqlite
pub mod Queries
pub mod Agreement
mod Tests
