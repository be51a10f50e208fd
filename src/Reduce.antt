-- ===== src/Reduce.antt =====
-- src/core/reduce.cc: the loops over elements, the 16-bit conversions, and the entry points.
pub mod Loops
pub mod Codec
pub mod Hardware
pub mod Simd
pub mod Kernels
pub mod Dispatch
pub mod Scale
mod Tests
