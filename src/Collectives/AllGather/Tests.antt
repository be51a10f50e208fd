-- ===== src/Collectives/AllGather/Tests.antt =====
-- src/core/collectives.cc: three ranks, which Bruck's algorithm serves, gather two bytes each.
use vkccl.Prelude.{ℕ, ◌+◌, ◌*◌, ◌<◌, ◌≡◌, refl, true, ◌&&◌, some, arith}
use vkccl.Net.{World}
use vkccl.Collectives.AllGather.{default, log_path, is_pow2, all_gather}
use vkccl.Collectives.AllGather.Refinement.{gathered, all_gather_lem}

abbrev sent : World ℕ
sent r i = 10 * r + i

abbrev blank : World ℕ
blank r i = 99

all_gather_lem_example :
    (v : World ℕ) × (all_gather 3 2 1 default 65536 blank sent blank ≡ some v)
    × ((r i : ℕ) → r < 3 → v r i ≡ gathered 3 2 sent blank r i)
all_gather_lem_example =
    all_gather_lem 3 2 1 sent blank default 65536 blank (omega arith) (omega arith)

-- Four ranks take the path of recursive doubling.
four_double : is_pow2 4 && log_path default 2 65536 ≡ true
unfolding is_pow2 log_path
four_double = refl
