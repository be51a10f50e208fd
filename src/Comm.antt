-- ===== src/Comm.antt =====
-- src/core/comm.h and src/core/comm.cc: the parts of a communicator.
pub mod CustomOps
pub mod Errors
pub mod Registrar
mod Tests
pub mod MrCache
pub mod Split
pub mod Registrations
