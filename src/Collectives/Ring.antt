-- ===== src/Collectives/Ring.antt =====
-- src/core/collectives.cc: `ringReduceScatter` and `ringAllGather`, the two halves of the ring
-- all-reduce, run by all ranks. A round takes the buffers of all ranks to the buffers after one
-- `sendRecv` on each.
pub mod Positions
pub mod Fold
pub mod ReduceScatter
pub mod AllGather
mod Tests
