-- ===== src/Ws.antt =====
-- ws_server.rs: the HTTP request of a browser, and its WebSocket session.
pub mod Http
pub mod Session
pub mod Accept
mod Tests
mod AcceptTests
