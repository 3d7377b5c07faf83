-- ===== src/ApiKeys.antt =====
-- API keys: api/apps/common/v0/service/api_key.py, api/apps/common/v0/dao/api_key.py,
-- api/apps/common/utils.py and the dependency `get_api_key` of api/core/dependencies.py.
pub mod World
pub mod Dao
pub mod Service
pub mod Spec
mod Rows
mod Coherence
mod Simulation
mod Changes
mod Lookups
mod Refinement
mod Race
mod Tests
