-- ===== src/Channels.antt =====
-- apps/server/src/channels.ts: named channels and their members, and the route of
-- apps/server/src/app.ts that adds a member.
pub mod Types
pub mod Slug
pub mod Rows
pub mod Store
pub mod Membership
pub mod Effects
pub mod Change
pub mod Invariant
pub mod History
pub mod Rules
mod Tests
