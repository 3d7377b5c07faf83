-- ===== src/Idempotency.antt =====
-- api/core/idempotency.py: answering a repeated request from the first answer.
pub mod Route
pub mod Exclusion
pub mod Replay
mod Tests
