-- ===== src/Collectives/Broadcast/Tests.antt =====
-- Four ranks with the root 2: ten bytes in pieces of four.
use vkccl.Prelude.{ℕ, ◌+◌, ◌*◌, ◌≤◌, ◌<◌, ◌≡◌, arith}
use vkccl.Net.{Mem, World}
use vkccl.Collectives.Program.{Outbox}
use vkccl.Collectives.Broadcast.Chain.{Runs, broadcast_lem}

abbrev inputs : World ℕ
inputs r i = 100 * r + i

abbrev empty : World ℕ
empty r i = 0

broadcast_example :
    (out : Outbox ℕ) × (buf : Mem ℕ) × Runs 4 2 10 4 inputs empty 1 out buf
    × ((i : ℕ) → i < 10 → buf i ≡ inputs 2 i)
    × ((i : ℕ) → 10 ≤ i → buf i ≡ empty 1 i)
broadcast_example =
    broadcast_lem 4 2 10 4 inputs empty (omega arith) (omega arith) (omega arith) (omega arith) 1
      (omega arith)
