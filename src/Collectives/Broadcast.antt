-- ===== src/Collectives/Broadcast.antt =====
-- src/core/collectives.cc: `doBroadcast`, a pipelined ring of pieces, on send and receive buffers that
-- do not overlap.
pub mod Pieces
pub mod Chain
mod Tests
use vkccl.Prelude.{◌^◌, ℕ, Bool, true, false, ◌||◌, List, [], ◌∷◌, ◌++◌, ◌==◌, if◌then◌else◌}
use vkccl.Topology.{next, prev}
use vkccl.Verbs.Segments.{Segment, segments}
use vkccl.Collectives.Program.{Act, copy, forward, recv}

-- `kPipeBytes`
abbrev pub pipe_bytes : ℕ
pipe_bytes = 2 ^ 19

-- The body of the loop at the root, and at another rank; the tail does not forward.
unfoldable pub root_acts : ℕ → List Segment → List Act
root_acts nx [] = []
root_acts nx (s ∷ ss) = forward nx s.offset s.bytes ∷ root_acts nx ss

unfoldable pub hop_acts : ℕ → ℕ → Bool → List Segment → List Act
hop_acts pv nx tail [] = []
hop_acts pv nx true (s ∷ ss) = recv pv s.offset s.bytes ∷ hop_acts pv nx true ss
hop_acts pv nx false (s ∷ ss) =
    recv pv s.offset s.bytes ∷ forward nx s.offset s.bytes ∷ hop_acts pv nx false ss

-- `doBroadcast` of rank `r`, with pieces of `pipe` bytes: `off` runs over them as `postSend` runs
-- over its segments.
unfoldable pub broadcast : ℕ → ℕ → ℕ → ℕ → ℕ → List Act
broadcast n root bytes pipe r =
    let own = if r == root then copy 0 0 bytes ∷ [] else [] in
    let rest =
      if r == root
      then root_acts (next n r) (segments pipe bytes)
      else hop_acts (prev n r) (next n r) (next n r == root) (segments pipe bytes) in
    if n == 1 || bytes == 0 then own else own ++ rest
