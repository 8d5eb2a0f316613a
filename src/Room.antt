-- ===== src/Room.antt =====
-- room_server.rs: the HTTP interface of AppRTC.
pub mod Server
pub mod Join
pub mod Handlers
pub mod Pages
pub mod Router
pub mod Simulates
mod Tests
