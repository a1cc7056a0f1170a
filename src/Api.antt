-- ===== src/Api.antt =====
-- app/routers/deps.py and app/routers/auth.py: who a request comes from, what it may do, and the
-- endpoints for sessions and accounts.
pub mod Deps
pub mod Accounts
pub mod Members
pub mod Serve
pub mod Preserves
pub mod LastAdmin
pub mod FirstStart
pub mod Sealed
pub mod Rights
pub mod Identity
pub mod Logins
pub mod Sessions
pub mod Feedback
pub mod Disclosed
