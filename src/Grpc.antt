-- ===== src/Grpc.antt =====
-- grpc_server.rs and grpc_client.rs: the private gRPC service between AppRTC and signaling.
pub mod Operations
pub mod RequestCache
pub mod Claims
pub mod Execute
pub mod Wire
pub mod Handlers
pub mod Unary
pub mod Service
pub mod Client
pub mod Stream
mod Tests
mod StreamTests
mod ServiceTests
mod SessionTests
