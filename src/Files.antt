-- ===== src/Files.antt =====
-- Files on disk: the atomic writes and the staging directories of app/core/atomic_io.py.
pub mod Paths
pub mod Atomic
mod Backups
pub mod Refinement
pub mod Completion
pub mod Writes
pub mod Folders
pub mod Staging
pub mod Commits
