-- ===== src/Ws.antt =====
-- app/ws: notifications to the connected clients of a user.
pub mod Broadcaster
pub mod Connections
pub mod RateLimit
