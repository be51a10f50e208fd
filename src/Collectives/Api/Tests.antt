-- ===== src/Collectives/Api/Tests.antt =====
-- The root's `vcclReduce` with `vcclAvg` on floats, on the third of four ranks.
use vkccl.Prelude.{ℕ, ◌≡◌, refl, false, none, some, [], pos}
use vkccl.Types.{Result, type_size, is_float_type, success, float32, is_float_type}
use vkccl.Comm.Errors.{fresh, check_comm}
use vkccl.Comm.CustomOps.{resolve_op}
use vkccl.Collectives.Api.{Comm, Args, Call, do_reduce, Request, reduce, request}
use vkccl.Collectives.Api.Checks.{Valid, Checked, request_lem}

abbrev third : Comm ℕ
third = record { errors = fresh; custom_ops = []; rank = 2; nranks = 4 }

abbrev arguments : Args
arguments = record { sendbuff = 4096; recvbuff = 8192; count = 16; datatype = float32 }

abbrev average : Request
average = reduce arguments (pos 4) (pos 2)

abbrev handed : Call ℕ
handed = do_reduce arguments (record { op = 4; premul = none }) 2

-- Every implementation succeeds.
abbrev answers : Call ℕ → Result
answers call = success

accepted : request answers (some third) average ≡ (success, some handed)
unfolding request resolve_op is_float_type check_comm type_size
accepted = refl

request_example :
    Valid third handed
    × Checked average
    × (success ≡ answers handed)
    × (third.errors.aborted ≡ false)
request_example = request_lem answers third average success handed accepted
