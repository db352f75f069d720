-- ===== src/Files.antt =====
-- apps/server/src/files: paths, permissions and metadata of the team's file system.
pub mod Text
pub mod Paths
pub mod PathLaws
pub mod Ancestors
pub mod Types
pub mod Rows
pub mod Access
pub mod Directories
pub mod Write
pub mod Remove
pub mod Move
pub mod Counts
pub mod Unique
pub mod Sound
pub mod SoundWrites
pub mod SoundRemoval
pub mod History
pub mod Protection
pub mod Removal
mod Tests
