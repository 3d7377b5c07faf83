-- ===== src/Events.antt =====
-- The event bus over a Redis stream: api/core/events/bus.py
pub mod Bus
mod Dispatch
mod Once
mod Tests
