-- ===== src/Collectives/AllGather.antt =====
-- src/core/collectives.cc: `doAllGather` with its three algorithms. Buffers are in bytes.
mod Tests
pub mod Blocks
pub mod Bruck
pub mod Doubling
pub mod Refinement
use vkccl.Prelude.{
  ℕ, zero, suc, ◌+◌, ◌-◌, ◌*◌, ◌/◌, ◌%◌, bit_and, bit_xor, Bool, true, false, ◌&&◌, ◌||◌, Option,
  none, some, ltb, leb, ◌==◌, if◌then◌else◌,
}
use vkccl.Net.{Mem, World, SendRecv, exchange, copy_to}
use vkccl.Collectives.Chunks.{equal_chunks}
use vkccl.Collectives.Ring.AllGather.{ring_all_gather}

-- `(dst >> i) << i` for the mask `1 << i`
abbrev pub aligned : ℕ → ℕ → ℕ
aligned mask r = r / mask * mask

module _ (n chunk : ℕ) where
  -- The bytes of a step of `bruckAllGather` that holds `curr` bytes.
  unfoldable pub bruck_xfer : ℕ → ℕ → ℕ
  bruck_xfer pof2 curr = if leb pof2 (n - pof2) then curr else (n - pof2) * chunk

  -- Its `sendRecv`; the pre-posted receives are the same calls and move no data.
  unfoldable pub bruck_call : ℕ → ℕ → ℕ → SendRecv
  bruck_call pof2 curr r = record {
    send_peer = (r + n - pof2) % n;
    send_at = 0;
    send_len = bruck_xfer pof2 curr;
    recv_peer = (r + pof2) % n;
    recv_len = bruck_xfer pof2 curr;
  }

  -- The `sendRecv` of `recursiveDoublingAllGather`.
  unfoldable pub doubling_call : ℕ → ℕ → ℕ → SendRecv
  doubling_call mask curr r = record {
    send_peer = bit_xor r mask;
    send_at = aligned mask r * chunk;
    send_len = curr;
    recv_peer = bit_xor r mask;
    recv_len = curr;
  }

  module _ {A : Type 0} where
    unfoldable pub bruck_store : ℕ → ℕ → World A → World A → World A
    bruck_store pof2 curr w received r = copy_to (w r) curr (bruck_xfer pof2 curr) (received r)

    -- `for (int pof2 = 1; pof2 < n; pof2 <<= 1)`, on fuel.
    unfoldable pub bruck_from : ℕ → ℕ → ℕ → World A → Option (World A)
    bruck_from zero pof2 curr w = some w
    bruck_from (suc fuel) pof2 curr w =
        let rest : Option (World A) = elim (exchange n (bruck_call pof2 curr) w) [
          | none ↦ none
          | some received ↦
              bruck_from fuel (pof2 * 2) (curr + bruck_xfer pof2 curr)
                (bruck_store pof2 curr w received)
        ] in
        if ltb pof2 n then rest else some w

    -- The final reorder through the scratch buffer, with the blocks left.
    unfoldable pub rotate_from : ℕ → Mem A → ℕ → ℕ → Mem A → Mem A
    rotate_from r recv zero i tmp = tmp
    rotate_from r recv (suc left) i tmp =
        rotate_from r recv left (i + 1)
          (copy_to tmp ((r + i) % n * chunk) chunk (λ j. recv (i * chunk + j)))

    -- `memcpy(recv, recv + rank * chunkBytes, chunkBytes);` of every rank but 0.
    unfoldable pub bruck_start : World A → World A
    bruck_start w r = if r == 0 then w r else copy_to (w r) 0 chunk (λ j. w r (r * chunk + j))

    unfoldable pub bruck_end : World A → World A → World A
    bruck_end scratch w r =
        if r == 0 then w r else copy_to (w r) 0 (n * chunk) (rotate_from r (w r) n 0 (scratch r))

    -- `bruckAllGather`; the step doubles, so `n` rounds are enough.
    unfoldable pub bruck_all_gather : World A → World A → Option (World A)
    bruck_all_gather scratch w = elim (bruck_from n 1 chunk (bruck_start w)) [
      | none ↦ none
      | some v ↦ some (bruck_end scratch v)
    ]

    unfoldable pub doubling_store : ℕ → ℕ → World A → World A → World A
    doubling_store mask curr w received r =
        copy_to (w r) (aligned mask (bit_xor r mask) * chunk) curr (received r)

    -- `for (int mask = 1; mask < n; mask <<= 1, ++i)`, on fuel.
    unfoldable pub doubling_from : ℕ → ℕ → ℕ → World A → Option (World A)
    doubling_from zero mask curr w = some w
    doubling_from (suc fuel) mask curr w =
        let rest : Option (World A) = elim (exchange n (doubling_call mask curr) w) [
          | none ↦ none
          | some received ↦
              doubling_from fuel (mask * 2) (curr * 2) (doubling_store mask curr w received)
        ] in
        if ltb mask n then rest else some w

    unfoldable pub doubling_all_gather : World A → Option (World A)
    doubling_all_gather w = doubling_from n 1 chunk w

-- `VCCL_ALLGATHER_ALGO`
pub data Algorithm : Type 0 where
  ring recdouble default : Algorithm

-- `!forceRing && (forceRD || bytes <= rdMax)`
unfoldable pub log_path : Algorithm → ℕ → ℕ → Bool
log_path ring bytes rd_max = false
log_path recdouble bytes rd_max = true
log_path default bytes rd_max = leb bytes rd_max

-- `n > 1 && (n & (n - 1)) == 0`
unfoldable pub is_pow2 : ℕ → Bool
is_pow2 n = ltb 1 n && bit_and n (n - 1) == 0

-- `doAllGather` of all ranks, from send buffers that do not overlap the receive buffers; every rank
-- sees the same environment variables, and its buffers are pinned.
module _ {A : Type 0} (n count esize : ℕ) where
  unfoldable pub all_gather_own : World A → World A → World A
  all_gather_own send recv r = copy_to (recv r) (r * (count * esize)) (count * esize) (send r)

  unfoldable pub all_gather : Algorithm → ℕ → World A → World A → World A → Option (World A)
  all_gather algo rd_max scratch send recv =
      let chunk = count * esize in
      let w = all_gather_own send recv in
      if n == 1 || count == 0
      then some w
      else if log_path algo chunk rd_max
      then (if is_pow2 n then doubling_all_gather n chunk w else bruck_all_gather n chunk scratch w)
      else ring_all_gather n 1 0 (equal_chunks chunk) w
