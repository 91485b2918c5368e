-- ===== src/Gateway.antt =====
-- The websocket gateway of src/gateway.
pub mod Events
pub mod Sockets
pub mod Messages
