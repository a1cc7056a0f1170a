-- ===== src/Updater.antt =====
-- Updates of the portal: app/engine/updater.py.
pub mod Apply
pub mod Locks
pub mod Steps
pub mod Progress
pub mod Bounds
pub mod Check
pub mod Agreement
pub mod Summary
pub mod Acknowledged
