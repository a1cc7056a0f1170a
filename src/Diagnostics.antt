-- ===== src/Diagnostics.antt =====
-- Network diagnostics: app/monitoring/net_diagnostics.py.
pub mod Target
pub mod Verdict
