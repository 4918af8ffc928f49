-- ===== src/Realtime.antt =====
-- src/realtime: rooms and the events that are sent to them.
pub mod Rooms
pub mod Sockets
pub mod Events
pub mod Handler
pub mod Handshake
