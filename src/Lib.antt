-- ===== src/Lib.antt =====
-- vccl: collective operations between the ranks of a communicator, over RDMA or TCP.
--
-- A program calls the entry points of include/vccl.h (src/core/collectives.cc), which check their
-- arguments and run at once or, inside a group, when the group ends (src/core/group.cc). A
-- collective is a fixed sequence of sends and receives of each rank on its transport
-- (src/transport/transport.h), with reductions on the processor between them (src/core/reduce.cc).
-- It pins its buffers with the transport through a cache of registrations (src/core/comm.h). A
-- failure is noted in the communicator (src/core/comm.h, src/core/comm.cc).
--
-- The files and what they model:
--   Types: result codes, data types, operator numbers (include/vccl.h, src/core/types.cc).
--   Topology: `next` and `prev` of a rank (src/core/comm.h).
--   Net: `Transport::sendRecv` read for all ranks at once. In a round every rank makes one call, and
--     the calls must match in peers and sizes, else the round has no result.
--   Reduce: src/core/reduce.cc. Loops has `reduceNative` for any operation, Codec the 16-bit
--     conversions on bit patterns, Hardware the arithmetic and the intrinsics as parameters, Simd and
--     Kernels the vector loops, Dispatch `cpuReduce`, Scale the three scaling loops.
--   Collectives: src/core/collectives.cc. Chunks has `makeChunks`; Ring has `ringReduceScatter`
--     and `ringAllGather`; AllGather has `doAllGather` with its ring, recursive doubling and Bruck
--     paths; AllReduce has the all-reduce by recursive doubling and by power-of-two elimination,
--     and `doAllReduce`; Reduce has `doReduce`; ReduceScatter has `doReduceScatter`; AllToAll has
--     `doAllToAllv` and the tables of `vcclAllToAll`; Program runs the sends and receives of one
--     rank, for Rooted (`doGather`, `doScatter`) and Broadcast (`doBroadcast`); Api has the entry
--     points up to `runOp` and `enqueueOrRunP2p`.
--   Comm: Errors has the error state (`noteError`, `vcclCommAbort`, `vcclCommGetAsyncError`),
--     CustomOps the table of PreMulSum operators, MrCache the cache of registrations and
--     `ScopedReg`, Registrations `vcclCommRegister`, `vcclCommDeregister`, `scratchAt` and `vcclCommDestroy`,
--     Split the members and new ranks of `vcclCommSplit`. They see a transport through the
--     interface Registrar: a state, its operations, and laws.
--   Verbs: src/transport/verbs.cc. Regions has the table of registrations and `resolve`,
--     Registration shows that it is a Registrar, Segments has the work requests of a transfer,
--     Completions the waits of `pollPeer` and `sendRecv`, Waves the waves of `batch`, Operations the
--     calls `send`, `recv`, `sendRecv`, `batch` and `postRecvs` on a state with memory, Device the
--     choice of a device and of its GID, Connect the queue pairs of `VerbsTransport::create`.
--   Group: src/core/group.cc. Runs is about `runCommOps`, Order about `vcclGroupEnd`.
--   Bootstrap: `Bootstrap::init` and the registry of listening sockets (src/core/bootstrap.cc);
--     Gather has `Bootstrap::allGather`.
--   Tcp: src/transport/tcp.cc. Mesh has `TcpTransport::create` and the choice of `transportCreate`,
--     Batch has `batch`. Slots: tables of one socket for each rank, for Bootstrap and Tcp.
--   Socket: `sendAll` and `recvAll` (src/util/socket.cc).
--   Address: the wire form of an address (src/util/socket.cc) and the one in a unique id
--     (src/core/bootstrap.cc).
--   Deadline: the watchdog (src/util/deadline.h).
--   Prelude: Boolean tests, lists and remainders over the native numbers, shared by all.
--
-- State is passed from operation to operation, and an operation that fails answers with a result
-- code. What code outside the repository decides (whether a registration is granted, what a poll
-- reaps, how many bytes a call moves) is an argument: a list of the answers to come, taken in order,
-- so a loop that waits is a recursion on that list and says so when the list is used up. Loops that
-- count are recursions on the rounds left: `nranks - 1` rounds of a ring, the bytes of a transfer for
-- its segments (each takes at least one), the length of a queue for `runCommOps` (each round takes
-- at least one operation). Counts, sizes and addresses are natural numbers: the sizes of the
-- buffers of a program stay below 2 ^ 64, and no sum wraps around. A send buffer and a receive
-- buffer do not overlap: calls in place are not modelled.
--
-- Not modelled: the parsing of VCCL_COMM_ID, the creation of communicators, the closing of sockets
-- and of what the RDMA transport has opened, and the log. The threads of a group's end run one
-- communicator each and are taken one by one. What the language leaves open of a signed overflow is
-- taken to wrap around. A product that a compiler fuses with a sum is not modelled. The conversions
-- of F16C are parameters without laws: what they round to is not stated.
pub mod Prelude
pub mod Types
pub mod Comm
pub mod Verbs
pub mod Deadline
pub mod Group
pub mod Slots
pub mod Bootstrap
pub mod Tcp
pub mod Socket
pub mod Address
pub mod Topology
pub mod Net
pub mod Reduce
pub mod Collectives
