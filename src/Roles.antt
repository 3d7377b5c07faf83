-- ===== src/Roles.antt =====
-- Roles: api/apps/user/v0/dao/role.py and api/apps/user/v0/service/role.py, and what a change of a
-- role does to the tokens of those who have it.
pub mod World
pub mod Dao
pub mod Service
pub mod Assign
mod Tokens
mod Tests
