-- ===== src/Collectives.antt =====
-- src/core/collectives.cc.
pub mod Chunks
pub mod Ring
pub mod Program
pub mod AllGather
pub mod AllReduce
pub mod ReduceScatter
pub mod Reduce
pub mod Combined
pub mod Rooted
pub mod Api
pub mod Broadcast
pub mod AllToAll
