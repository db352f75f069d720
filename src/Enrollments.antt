-- ===== src/Enrollments.antt =====
-- apps/server/src/enrollments.ts: pending enrollments of devices, from mint to the poll that takes
-- the token.
pub mod Types
pub mod Store
pub mod Methods
pub mod Change
pub mod History
pub mod Lookup
pub mod Rules
mod Tests
