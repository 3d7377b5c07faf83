-- ===== src/Auth.antt =====
-- Sign-in: tokens (api/core/auth.py), the user tables (api/apps/user/v0/dao/user.py), the request
-- dependencies (api/core/dependencies.py) and the service (api/apps/user/v0/service/auth.py).
pub mod World
pub mod Tokens
pub mod Users
pub mod Dependencies
pub mod Service
pub mod Access
pub mod Impersonation
pub mod Revoke
pub mod Accounts
mod RevokeAll
mod Created
pub mod Sudo
pub mod Example
mod AccountTests
mod Tests
