-- ===== src/Collectives/ReduceScatter/Tests.antt =====
-- src/core/collectives.cc: three ranks scatter the averages of two elements each.
use vkccl.Prelude.{ℕ, ◌+◌, ◌*◌, ◌/◌, ◌<◌, ◌≡◌, refl, true, false, some, arith}
use vkccl.Net.{World}
use vkccl.Collectives.ReduceScatter.{Operator, reduce_scatter}
use vkccl.Collectives.ReduceScatter.Travel.{travel, reduced_chunk, reduce_scatter_lem}

abbrev averages : Operator ℕ
averages = record {
  reduce = ◌+◌;
  scaled_add = λ d s. d + 2 * s;
  scaled = λ s. 2 * s;
  average = λ s. s / 3;
  premul = false;
  is_avg = true;
}

abbrev shares : World ℕ
shares r i = 30 * r + 3 * i

abbrev target : World ℕ
target r i = 0

reduce_scatter_lem_example :
    (v : World ℕ) × (reduce_scatter averages 3 2 8 shares target ≡ some v)
    × ((r i : ℕ) → r < 3 → v r i ≡ reduced_chunk averages 3 2 8 shares target r i)
reduce_scatter_lem_example = reduce_scatter_lem averages 3 2 8 shares target (omega arith)

-- The elements 3, 33 and 63 of rank 0's chunk, and the scaled sum of the same.
average_at_one : reduced_chunk averages 3 2 8 shares target 0 1 ≡ 33
unfolding travel
average_at_one = refl

scaled_at_one :
    reduced_chunk (record averages { premul = true; is_avg = false }) 3 2 8 shares target 0 1 ≡ 198
unfolding travel
scaled_at_one = refl
