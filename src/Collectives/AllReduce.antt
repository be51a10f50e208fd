-- ===== src/Collectives/AllReduce.antt =====
-- src/core/collectives.cc: `recursiveDoublingAllReduce` of all ranks, for any operation on elements.
-- The regions of the scratch buffer, one for each step, are the received messages.
pub mod Doubling
pub mod Elimination
pub mod Choice
pub mod Trees
pub mod Promise
pub mod Logarithmic
pub mod Ring
pub mod Contract
pub mod Sum
mod Tests
use vkccl.Prelude.{ℕ, zero, suc, ◌*◌, bit_xor, Option, none, some, ltb, if◌then◌else◌}
use vkccl.Net.{World, SendRecv, exchange}
use vkccl.Reduce.Loops.{reduce_native}

-- The `sendRecv` of a step: both ways the whole buffer with the partner. The pre-posted receives
-- are the same and move no data.
unfoldable pub reduce_call : ℕ → ℕ → ℕ → SendRecv
reduce_call bytes mask r = record {
  send_peer = bit_xor r mask;
  send_at = 0;
  send_len = bytes;
  recv_peer = bit_xor r mask;
  recv_len = bytes;
}

module _ {A : Type 0} (op : A → A → A) (n count esize : ℕ) where
  -- `cpuReduce` of the received region into the buffer.
  unfoldable pub reduce_in : World A → World A → World A
  reduce_in w received r = reduce_native op (w r) 0 (received r) count

  -- `for (int mask = 1; mask < n; mask <<= 1, ++i)`, on fuel.
  unfoldable pub doubling_reduce_from : ℕ → ℕ → World A → Option (World A)
  doubling_reduce_from zero mask w = some w
  doubling_reduce_from (suc fuel) mask w =
      let rest : Option (World A) = elim (exchange n (reduce_call (count * esize) mask) w) [
        | none ↦ none
        | some received ↦ doubling_reduce_from fuel (mask * 2) (reduce_in w received)
      ] in
      if ltb mask n then rest else some w

  -- `recursiveDoublingAllReduce`; the mask doubles, so `n` rounds are enough.
  unfoldable pub doubling_all_reduce : World A → Option (World A)
  doubling_all_reduce w = doubling_reduce_from n 1 w
