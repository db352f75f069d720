-- ===== src/Sessions.antt =====
-- apps/server/src/sessions.ts: the sessions of the web interface, with their sliding lifetime.
pub mod Store
pub mod Spec
mod Tests
