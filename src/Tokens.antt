-- ===== src/Tokens.antt =====
-- apps/server/src/tokens.ts: bearer tokens, kept by their hashes.
pub mod Store
pub mod History
pub mod Revocation
mod Tests
