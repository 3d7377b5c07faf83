-- ===== src/TwoFactor.antt =====
-- Two-factor authentication: the codes of api/utils/totp.py and the methods of
-- api/apps/user/v0/service/auth.py that use them. A code is the list of its code points (ASCII).
pub mod Codes
pub mod Backup
pub mod Service
pub mod Challenge
pub mod Replay
pub mod Setup
pub mod Login
mod Tests
