-- ===== src/Collectives/Ring/Tests.antt =====
-- Three ranks that reduce and gather five elements in chunks of two, two and one.
use vkccl.Prelude.{ℕ, ◌+◌, ◌*◌, ◌<◌, min, ◌≡◌, some, arith}
use vkccl.Topology.{next}
use vkccl.Net.{World}
use vkccl.Collectives.Chunks.{Chunk, per_chunk, make_chunks, Tiles, InChunk, make_chunks-Tiles}
use vkccl.Collectives.Ring.Fold.{ring_fold}
use vkccl.Collectives.Ring.ReduceScatter.{ring_reduce_scatter, Untouched, ring_reduce_scatter_lem}

-- Rank `r` contributes `10 * r + i` at element `i`.
abbrev inputs : World ℕ
inputs r i = 10 * r + i

abbrev table : ℕ → Chunk
table = make_chunks 5 3 4

abbrev cuts : ℕ → ℕ
cuts c = min (per_chunk 5 3 * c) 5

table-Tiles : Tiles 4 table cuts
table-Tiles = make_chunks-Tiles 5 3 4 (omega arith)

ring_reduce_scatter_example :
    (v : World ℕ) × (ring_reduce_scatter ◌+◌ 3 4 table inputs ≡ some v)
    × ((r i : ℕ)
        → r < 3
        → InChunk cuts (next 3 r) i
        → v r i ≡ ring_fold ◌+◌ 3 inputs (next 3 r) i 2)
    × Untouched ◌+◌ 3 4 table cuts table-Tiles inputs v
ring_reduce_scatter_example =
    ring_reduce_scatter_lem ◌+◌ 3 4 table cuts table-Tiles inputs (omega arith)
