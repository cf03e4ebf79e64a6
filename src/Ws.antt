-- ===== src/Ws.antt =====
-- The WebSocket client (src/ws).
pub mod Subscription
pub mod Active
pub mod Connection
pub mod Post
pub mod Reconnect
mod Tests
