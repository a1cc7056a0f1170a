-- ===== src/Tls.antt =====
-- The certificate of the portal: what is staged, when it is renewed, and who is told.
pub mod Certificates
pub mod Provision
pub mod Discovery
pub mod Scheduler
pub mod Renewal
pub mod Torn
pub mod Requests
pub mod Status
pub mod Toggle
pub mod Duckdns
pub mod Acme
pub mod Flow
pub mod Traced
pub mod Cleared
