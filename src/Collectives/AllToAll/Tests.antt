-- ===== src/Collectives/AllToAll/Tests.antt =====
-- Three ranks that exchange blocks of two elements.
use vkccl.Prelude.{ℕ, ◌+◌, ◌*◌, ◌<◌, ◌≡◌, some, arith}
use vkccl.Net.{World}
use vkccl.Collectives.AllToAll.{
  all_to_all_tables, all_to_all, Frame, all_to_all_lem, all_to_all_tables-Agree,
}

abbrev inputs : World ℕ
inputs r i = 10 * r + i

abbrev empty : World ℕ
empty r i = 0

all_to_all_example :
    (v : World ℕ) × (all_to_all 3 4 (all_to_all_tables 2) inputs empty ≡ some v)
    × ((r p i : ℕ)
        → r < 3
        → p < 3
        → i < (all_to_all_tables 2).recvcounts r p
        → v r ((all_to_all_tables 2).rdispls r p + i)
          ≡ inputs p ((all_to_all_tables 2).sdispls p r + i))
    × Frame 3 4 (all_to_all_tables 2) inputs empty v
all_to_all_example =
    all_to_all_lem 3 4 (all_to_all_tables 2) inputs empty (omega arith)
      (all_to_all_tables-Agree 3 4 2 inputs)
