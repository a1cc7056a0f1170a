-- ===== src/Config.antt =====
-- The configuration of the game server: app/config_manager.
pub mod Settings
pub mod Protection
pub mod Newlines
pub mod Injection
pub mod Parsing
pub mod Scanner
pub mod Pairs
pub mod Trimmed
pub mod RoundTrip
