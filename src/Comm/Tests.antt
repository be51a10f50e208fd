-- ===== src/Comm/Tests.antt =====
-- Communicators in use: three operations of which two fail, an operator table with a free slot,
-- and a full cache of one entry over the RDMA transport.
use Prim.Native.String.{String}
use vkccl.Prelude.{
  ◌||◌, ℕ, ◌≡◌, refl, true, false, none, some, List, [], ◌∷◌, arith, ◌==◌, if◌then◌else◌, pos,
}
use vkccl.Types.{
  Result, success, invalid_argument, invalid_usage, remote_error, float32, is_float_type,
}
use vkccl.Comm.Errors.{
  fresh, check_comm, get_async_error, note_all, first_failure, any_fatal, note_all_lem,
}
use vkccl.Comm.CustomOps.{CustomOp, premul_scalar, create_premul_sum, create_premul_sum_lem}
use vkccl.Comm.MrCache.{Cache}
use vkccl.Comm.MrCache.Laws.{Owned, outside}
use vkccl.Comm.MrCache.Scoped.{scoped_adds, scoped_end, scoped_lem}
use vkccl.Comm.Registrations.{Comm, destroy, Use, registers, deregisters, grows, collects, use_all}
use vkccl.Comm.Registrations.Balance.{new_comm, destroy_balance}
use vkccl.Comm.Registrations.Growth.{has}
use vkccl.Verbs.Regions.{Regions}
use vkccl.Verbs.Registration.{verbs_registrar}

abbrev results : List (Result × String)
results = (success, "") ∷ (invalid_argument, "bad root") ∷ (remote_error, "peer closed") ∷ []

note_all_example :
    (get_async_error (some (note_all results fresh)) ≡ (success, some (first_failure results)))
    × (check_comm (some (note_all results fresh))
        ≡ (if any_fatal results then invalid_usage else success))
note_all_example = note_all_lem results

-- Scalars 7 and 9, of which the first is destroyed.
abbrev table : List (CustomOp ℕ)
table = record { scalar = 7; active = false } ∷ record { scalar = 9; active = true } ∷ []

create_premul_sum_example :
    (k : ℕ) × (ops' : List (CustomOp ℕ)) × (create_premul_sum float32 5 table
      ≡ (success, some (pos k), ops'))
    × (premul_scalar table (pos k) ≡ none)
    × ((j : ℕ)
        → premul_scalar ops' (pos j) ≡ (if j == k then some 5 else premul_scalar table (pos j)))
unfolding is_float_type
create_premul_sum_example = create_premul_sum_lem float32 5 table refl

-- Regions 1 and 2, of which the cache holds the first.
abbrev pinned : Regions
pinned = record {
  regions =
      record { handle = 1; start = 4096; len = 64; staging = none }
      ∷ record { handle = 2; start = 8192; len = 64; staging = none }
      ∷ [];
  pins = true ∷ [];
}

abbrev cached : Cache
cached = record { entries = record { addr = 4096; len = 64; handle = 1; seq = 1 } ∷ []; clock = 1 }

cached-Owned : Owned verbs_registrar cached pinned
cached-Owned = record { distinct = (refl, tt); registered = λ h p. ground arith }

abbrev ranges : List (ℕ × ℕ)
ranges = (12288, 64) ∷ (4096, 64) ∷ (0, 64) ∷ []

scoped_example :
    let q =
      scoped_end verbs_registrar
        (scoped_adds verbs_registrar 1 ranges
          (record { cache = cached; transport = pinned; handles = [] })).1 in
    Owned verbs_registrar q.cache q.transport
    × ((j : ℕ)
        → outside verbs_registrar q.cache q.transport j ≡ outside verbs_registrar cached pinned j)
scoped_example = scoped_lem verbs_registrar 1 ranges cached pinned cached-Owned

abbrev uses : List Use
uses =
    registers 16384 64
    ∷ grows 40960 64
    ∷ collects ranges ((45056, 128) ∷ [])
    ∷ deregisters 1
    ∷ registers 20480 64
    ∷ []

destroy_balance_example :
    let c = use_all verbs_registrar 1 uses (new_comm verbs_registrar pinned) in
    (verbs_registrar.live (vkccl.Comm.Registrations.destroy verbs_registrar c) 3
      ≡ (verbs_registrar.live pinned 3 || has c.scratch.handle 3))
    × (has c.scratch.handle 3 ≡ true → verbs_registrar.live pinned 3 ≡ false)
destroy_balance_example = destroy_balance verbs_registrar 1 uses pinned 3
