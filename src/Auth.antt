-- ===== src/Auth.antt =====
-- app/database/auth.py: session tokens, permission evaluation and the first-spin bootstrap.
pub mod Crypto
pub mod Tokens
pub mod Access
pub mod Bootstrap
pub mod TokenLaws
