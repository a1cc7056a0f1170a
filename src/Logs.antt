-- ===== src/Logs.antt =====
-- The game server's logs: app/monitoring/log_scraper.py.
pub mod Console
pub mod Scraper
pub mod Shown
