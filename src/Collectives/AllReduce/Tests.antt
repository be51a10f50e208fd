-- ===== src/Collectives/AllReduce/Tests.antt =====
-- src/core/collectives.cc: four ranks add up three elements by recursive doubling.
use native.Mathlib.Nat.{add_comm}
use vkccl.Prelude.{
  ℕ, ◌+◌, ◌*◌, ◌/◌, ◌%◌, ◌<◌, ◌≡◌, refl, true, false, some, arith, ltb, if◌then◌else◌,
}
use vkccl.Net.{World}
use vkccl.Collectives.AllGather.{ring, recdouble}
use vkccl.Collectives.ReduceScatter.{Operator}
use vkccl.Collectives.AllReduce.Choice.{all_reduce}
use vkccl.Collectives.AllReduce.Promise.{Reduced}
use vkccl.Collectives.AllReduce.Contract.{all_reduce_lem}
use vkccl.Collectives.AllReduce.Sum.{total, wrapping_sum, all_reduce_sum}
use vkccl.Collectives.AllReduce.Doubling.{tree}

abbrev shares : World ℕ
shares r i = 10 * r + i

sum_at_one : tree ◌+◌ shares 2 0 1 ≡ 64
sum_at_one = refl

-- Five ranks take the average of three elements by the ring.
abbrev averages : Operator ℕ
averages = record {
  reduce = ◌+◌;
  scaled_add = λ d s. d + 2 * s;
  scaled = λ s. 2 * s;
  average = λ s. s / 5;
  premul = false;
  is_avg = true;
}

abbrev target : World ℕ
target r i = 0

all_reduce_lem_example :
    (v : World ℕ) × (all_reduce averages 5 3 8 ring 0 shares target ≡ some v)
    × Reduced averages 5 3 8 shares target v
all_reduce_lem_example =
    all_reduce_lem averages 5 3 8 shares target ring 0 add_comm (omega arith) (omega arith)

-- Bytes of five ranks, by elimination: their sums wrap around at 256.
abbrev bytes : World ℕ
bytes r i = (100 * r + i) % 256

byte_bound : (r i : ℕ) → bytes r i < 256
byte_bound r i = omega arith

all_reduce_sum_example :
    (v : World ℕ) × (all_reduce (wrapping_sum 256) 5 3 1 recdouble 0 bytes target ≡ some v)
    × ((r i : ℕ) → r < 5 → v r i ≡ (if ltb i 3 then total (λ q. bytes q i) 5 % 256 else target r i))
all_reduce_sum_example =
    all_reduce_sum 256 5 3 1 bytes target recdouble 0 (omega arith) (omega arith) (omega arith)
      byte_bound
