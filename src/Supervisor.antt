-- ===== src/Supervisor.antt =====
-- The privileged supervisor process: app/supervisor.
pub mod Protocol
pub mod Server
pub mod Validity
pub mod Policy
pub mod Client
pub mod EndToEnd
