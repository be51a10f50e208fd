-- ===== src/Verbs/Device.antt =====
-- src/transport/verbs.cc: `pickGid` and `openDevice`. What the RDMA library, the system's files and
-- the environment answer is an argument. A device has fewer than 255 ports, so that the counter of
-- its ports, which has 8 bits, reaches the end.
pub mod Choice
pub mod Open
mod Tests
use vkccl.Prelude.{
  ℕ, zero, suc, ◌+◌, ◌/◌, ◌%◌, Bool, true, false, not, ◌&&◌, Option, none, some, List, [], ◌∷◌,
  ◌++◌, get_elem?, ltb, ◌==◌, if◌then◌else◌,
}
use vkccl.Types.{Result, success, system_error, is_success}

-- The bytes of a GID.
abbrev pub Gid : Type 0
Gid = List ℕ

-- A byte, which is 0 past the end.
abbrev byte : Gid → ℕ → ℕ
byte g i = elim (get_elem? g i) [ none ↦ 0 | some b ↦ b ]

-- `gidIsZero`
unfoldable pub gid_is_zero : Gid → Bool
gid_is_zero [] = true
gid_is_zero (b ∷ g) = b == 0 && gid_is_zero g

-- `gidIsIpv4Mapped`: the loop over the first bytes, with the bytes left, and the whole.
unfoldable pub zero_bytes : Gid → ℕ → ℕ → Bool
zero_bytes g i zero = true
zero_bytes g i (suc left) = byte g i == 0 && zero_bytes g (i + 1) left

unfoldable pub gid_is_ipv4_mapped : Gid → Bool
unfolding zero_bytes
gid_is_ipv4_mapped g = zero_bytes g 0 10 && byte g 10 == 255 && byte g 11 == 255

-- `gidIsLinkLocal`; `& 0xc0` leaves the two high bits.
unfoldable pub gid_is_link_local : Gid → Bool
gid_is_link_local g = byte g 0 == 254 && byte g 1 / 64 % 4 == 2

-- The GID table of a port: `ibv_query_gid` and `gidIsRoceV2` of an index.
pub record GidTable : Type 0 where
  pub len : ℕ
  pub query : ℕ → Option Gid
  pub is_roce_v2 : ℕ → Bool

-- The score of a GID.
unfoldable pub score : GidTable → ℕ → Gid → ℕ
score table i g =
    if table.is_roce_v2 i
    then (if gid_is_ipv4_mapped g then 3 else if gid_is_link_local g then 1 else 2)
    else 0

-- A GID that `pickGid` looks at: one that the query brings and that is not zero.
unfoldable pub usable : GidTable → ℕ → Option Gid
usable table i = elim (table.query i) [
  | none ↦ none
  | some g ↦ if gid_is_zero g then none else some g
]

-- `best`, `bestScore` and `bestGid`.
pub record Best : Type 0 where
  pub index : ℕ
  pub score : ℕ
  pub gid : Gid

-- The comparison with the best, of which there is none at first.
unfoldable pub better : ℕ → Gid → ℕ → Option Best → Option Best
better i g sc none = some (record { index = i; score = sc; gid = g })
better i g sc (some b) =
    if ltb b.score sc then some (record { index = i; score = sc; gid = g }) else some b

unfoldable pub consider : GidTable → ℕ → Option Gid → Option Best → Option Best
consider table i none best = best
consider table i (some g) best = better i g (score table i g) best

-- The loop of `pickGid`, with the indices left.
unfoldable pub best_gid : GidTable → ℕ → ℕ → Option Best → Option Best
best_gid table i zero best = best
best_gid table i (suc left) best =
    best_gid table (i + 1) left (consider table i (usable table i) best)

-- `pickGid`: with the index of `VCCL_GID_INDEX`, taken not to be negative, or without.
unfoldable pub pick_gid : Option ℕ → GidTable → Option (ℕ × Gid)
pick_gid (some i) table = elim (table.query i) [ none ↦ none | some g ↦ some (i, g) ]
pick_gid none table = elim (best_gid table 0 table.len none) [
  | none ↦ none
  | some b ↦ some (b.index, b.gid)
]
