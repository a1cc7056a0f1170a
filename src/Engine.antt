-- ===== src/Engine.antt =====
-- The reboot lifecycle of app/engine/service.py.
pub mod State
pub mod Countdown
pub mod Waiting
pub mod Loops
pub mod Outcomes
pub mod Undisturbed
pub mod Reported
pub mod Announcements
