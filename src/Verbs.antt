-- ===== src/Verbs.antt =====
-- src/transport/verbs.cc: the RDMA transport.
mod Tests
pub mod Regions
pub mod Registration
pub mod Segments
pub mod Completions
pub mod Waves
pub mod Operations
pub mod Device
pub mod Connect
