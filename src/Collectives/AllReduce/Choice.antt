-- ===== src/Collectives/AllReduce/Choice.antt =====
-- src/core/collectives.cc: `doAllReduce` of all ranks, for any operation on elements. Every rank sees
-- the same environment variables, and its buffer is pinned.
use vkccl.Prelude.{ℕ, ◌+◌, ◌*◌, ◌/◌, ◌%◌, ◌||◌, Option, none, some, ltb, ◌==◌, if◌then◌else◌}
use vkccl.Net.{Mem, World, copy_to}
use vkccl.Collectives.Chunks.{Chunk, make_chunks}
use vkccl.Collectives.Ring.ReduceScatter.{ring_reduce_scatter}
use vkccl.Collectives.Ring.AllGather.{ring_all_gather}
use vkccl.Collectives.AllGather.{Algorithm, log_path, is_pow2}
use vkccl.Collectives.ReduceScatter.{Operator, contribution}
use vkccl.Collectives.AllReduce.{doubling_all_reduce}
use vkccl.Collectives.AllReduce.Elimination.{elim_all_reduce}

module _ {A : Type 0} (o : Operator A) where
  -- `cpuScale` by `1.0 / n` of `len` elements from offset `at`, where the operator is the average.
  unfoldable pub average_part : ℕ → ℕ → Mem A → Mem A
  average_part at len m = if o.is_avg then copy_to m at len (λ i. o.average (m (at + i))) else m

module _ {A : Type 0} (o : Operator A) (n count esize : ℕ) where
  -- memcpy from the send buffer, and `cpuScale` where the operator is a PreMulSum.
  unfoldable pub own_input : World A → World A → World A
  own_input send recv r = copy_to (recv r) 0 count (λ i. contribution o (send r i))

  unfoldable pub log_all_reduce : World A → Option (World A)
  log_all_reduce w =
      let reduced : Option (World A) =
        if is_pow2 n
        then doubling_all_reduce o.reduce n count esize w
        else elim_all_reduce o.reduce n count w in
      elim reduced [ none ↦ none | some v ↦ some (λ r. average_part o 0 count (v r)) ]

  -- The chunk `mine` of each rank is averaged between the two halves of the ring.
  unfoldable pub average_mine : (ℕ → Chunk) → World A → World A
  average_mine chunks w r =
      let mine = chunks ((r + 1) % n) in
      if ltb 0 mine.bytes
      then average_part o (mine.offset / esize) (mine.bytes / esize) (w r)
      else w r

  unfoldable pub ring_all_reduce : World A → Option (World A)
  ring_all_reduce w =
      let chunks = make_chunks count n esize in
      elim (ring_reduce_scatter o.reduce n esize chunks w) [
        | none ↦ none
        | some v ↦ ring_all_gather n esize 1 chunks (average_mine chunks v)
      ]

  -- `doAllReduce`
  unfoldable pub all_reduce : Algorithm → ℕ → World A → World A → Option (World A)
  all_reduce algo rd_max send recv =
      let w = own_input send recv in
      if n == 1 || count == 0
      then some w
      else if log_path algo (count * esize) rd_max
      then log_all_reduce w
      else ring_all_reduce w
