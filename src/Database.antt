-- ===== src/Database.antt =====
-- api/core/database.py: the connection pools, their health and the choice of a pool.
pub mod Select
pub mod Available
pub mod Routing
pub mod ClientRegion
pub mod Lifecycle
pub mod Health
pub mod Creation
pub mod Queries
mod Retries
mod Tests
mod QueryTests
