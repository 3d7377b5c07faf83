-- ===== src/Webhooks.antt =====
-- Outbound webhooks: signatures, endpoints and their delivery, of api/apps/common.
pub mod Texts
pub mod Signature
pub mod Endpoints
pub mod Service
pub mod Delivery
pub mod Logs
mod Lists
mod Numbers
mod Signed
mod Reached
mod Created
mod Kept
mod Public
mod Guarded
mod Tests
