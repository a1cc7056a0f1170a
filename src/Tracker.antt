-- ===== src/Tracker.antt =====
-- The community tracker of app/monitoring/tracker.py: Steam queries, and the ledger of players.
pub mod Packet
pub mod Layout
pub mod Probe
pub mod Ledger
pub mod Remembered
