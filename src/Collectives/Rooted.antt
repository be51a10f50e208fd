-- ===== src/Collectives/Rooted.antt =====
-- src/core/collectives.cc: `doGather` and `doScatter`, on ranks whose send and receive buffers do not
-- overlap.
pub mod Gather
pub mod Scatter
mod Tests
use vkccl.Prelude.{
  ℕ, zero, suc, ◌+◌, ◌-◌, ◌*◌, ◌%◌, not, ◌||◌, List, [], ◌∷◌, ltb, ◌==◌, if◌then◌else◌,
}
use vkccl.Collectives.Program.{Act, copy, send, recv}

module _ (n root chunk_bytes : ℕ) where
  -- `for (int s = 1; s < nranks; s++)` of the root, with the steps left.
  unfoldable pub gather_recvs : ℕ → ℕ → List Act
  gather_recvs zero s = []
  gather_recvs (suc left) s =
      let peer = (root + s) % n in
      recv peer (peer * chunk_bytes) chunk_bytes ∷ gather_recvs left (s + 1)

  -- `doGather` of rank `r`
  unfoldable pub gather : ℕ → List Act
  gather r =
      if n == 1 || chunk_bytes == 0
      then (if ltb 0 chunk_bytes then copy 0 0 chunk_bytes ∷ [] else [])
      else if not (r == root)
      then send root 0 chunk_bytes ∷ []
      else copy 0 (root * chunk_bytes) chunk_bytes ∷ gather_recvs (n - 1) 1

  unfoldable pub scatter_sends : ℕ → ℕ → List Act
  scatter_sends zero s = []
  scatter_sends (suc left) s =
      let peer = (root + s) % n in
      send peer (peer * chunk_bytes) chunk_bytes ∷ scatter_sends left (s + 1)

  -- `doScatter` of rank `r`
  unfoldable pub scatter : ℕ → List Act
  scatter r =
      if n == 1 || chunk_bytes == 0
      then (if ltb 0 chunk_bytes then copy 0 0 chunk_bytes ∷ [] else [])
      else if not (r == root)
      then recv root 0 chunk_bytes ∷ []
      else copy (root * chunk_bytes) 0 chunk_bytes ∷ scatter_sends (n - 1) 1
