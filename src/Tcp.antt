-- ===== src/Tcp.antt =====
-- src/transport/tcp.cc: `TcpTransport` and `transportCreate`.
pub mod Mesh
pub mod Batch
mod Tests
