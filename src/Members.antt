-- ===== src/Members.antt =====
-- apps/server/src/members.ts and team-store.ts: permissions, presets and members; and the routes of
-- apps/server/src/app.ts that create, change or delete a member.
pub mod Permissions
pub mod Store
pub mod Admins
pub mod Governed
pub mod Updating
pub mod Deletion
pub mod Creation
pub mod Appending
pub mod Joining
mod Tests
