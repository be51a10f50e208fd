-- ===== src/Collectives/Reduce/Tests.antt =====
-- src/core/collectives.cc: three ranks reduce three elements to rank 1, in pieces of two elements.
use vkccl.Prelude.{
  ℕ, ◌+◌, ◌*◌, ◌/◌, ◌≡◌, refl, true, false, ◌&&◌, some, List, arith, ltb, ◌==◌, if◌then◌else◌,
}
use vkccl.Net.{Mem, World}
use vkccl.Collectives.Program.{Message}
use vkccl.Collectives.ReduceScatter.{Operator}
use vkccl.Collectives.Reduce.Chain.{rank_at, chain, passing, rooted, reduce_lem}

abbrev averages : Operator ℕ
averages = record {
  reduce = ◌+◌;
  scaled_add = λ d s. d + 2 * s;
  scaled = λ s. 2 * s;
  average = λ s. s / 3;
  premul = false;
  is_avg = true;
}

abbrev shares : World ℕ
shares r i = 30 * r + 3 * i

abbrev target : World ℕ
target r i = 0

reduce_lem_example :
    (out : ℕ → List (Message ℕ)) × (buf : Mem ℕ) × (chain averages 3 1 3 4 8 shares target 2
      ≡ some (out, buf))
    × ((j : ℕ)
        → buf j ≡ (
            if 2 + 1 == 3 && ltb j 3
            then rooted averages 3 1 3 4 8 shares target j
            else target (rank_at averages 3 1 3 4 8 shares target 2) j))
reduce_lem_example =
    reduce_lem averages 3 1 3 4 8 shares target (omega arith) 2 (omega arith) (omega arith) refl 2
      (omega arith)

average_at_two : rooted averages 3 1 3 4 8 shares target 2 ≡ 36
unfolding passing
average_at_two = refl
