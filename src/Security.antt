-- ===== src/Security.antt =====
-- app/security.py, one module for each part of it.
pub mod Base64
pub mod Password
pub mod Claims
pub mod Token
mod Tests
