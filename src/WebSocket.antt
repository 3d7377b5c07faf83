-- ===== src/WebSocket.antt =====
-- WebSocket notifications: the connection manager of one worker,
-- api/apps/notification/v0/channels/websocket.py
pub mod Dict
pub mod Manager
mod Synced
mod Delivery
mod Overlap
mod Tests
