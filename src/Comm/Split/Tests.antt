-- ===== src/Comm/Split/Tests.antt =====
-- Four ranks, of which 0, 2 and 3 have one color.
use vkccl.Prelude.{ℕ, ◌≡◌, refl, some, arith, ◌==◌, if◌then◌else◌, get_elem?, pos, negsuc}
use vkccl.Comm.Split.{SplitInfo, Member, members, new_rank}
use vkccl.Comm.Split.NewRanks.{Ordered, Keyed, Colored, new_rank_lem}

abbrev info : ℕ → SplitInfo
info r = record {
  color = if r == 1 then pos 5 else pos 7;
  key = if r == 0 then pos 1 else negsuc r;
}

new_rank_example :
    let ms = members 4 info (info 2).color in
    Ordered ms
    × Keyed info ms
    × Colored 4 info (info 2).color ms
    × ((i : ℕ) × (m : Member) × (new_rank 4 info 2 ≡ some i)
        × (get_elem? ms i ≡ some m)
        × (m.member_rank ≡ 2))
new_rank_example = new_rank_lem 4 info 2 (omega arith) refl
