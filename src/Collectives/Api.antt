-- ===== src/Collectives/Api.antt =====
-- src/core/collectives.cc: the entry points of include/vccl.h, from their arguments to what they hand
-- to `runOp` or `enqueueOrRunP2p`. A pointer is an address, 0 the null pointer; an `int` is an
-- integer. The scalar of a PreMulSum is of any type.
pub mod Checks
mod Tests
use vkccl.Prelude.{
  ℕ, ◌*◌, Bool, true, false, not, ◌&&◌, ◌||◌, Option, none, some, List, ltb, ◌==◌, if◌then◌else◌, ℤ,
  pos, negsuc, to_ℕ,
}
use vkccl.Types.{Result, success, invalid_argument, DataType, type_size}
use vkccl.Comm.Errors.{ErrorState, check_comm}
use vkccl.Comm.CustomOps.{CustomOp, resolve_op}
use vkccl.Group.{P2pOp}

-- The fields of `vcclComm` that the checks read.
pub record Comm (V : Type 0) : Type 0 where
  pub errors : ErrorState
  pub custom_ops : List (CustomOp V)
  pub rank : ℕ
  pub nranks : ℕ

-- A reduction as `resolveOp` leaves it: the built-in operator, and the scalar of a PreMulSum.
pub record Reduction (V : Type 0) : Type 0 where
  pub op : ℕ
  pub premul : Option V

-- The arguments that all entry points have: the buffers, the count, the data type.
pub record Args : Type 0 where
  pub sendbuff : ℕ
  pub recvbuff : ℕ
  pub count : ℕ
  pub datatype : DataType

-- What the closure runs, or the point-to-point operation.
pub data Call (V : Type 0) : Type 0 where
  do_all_gather : Args → Call V
  do_reduce_scatter : Args → Reduction V → Call V
  do_all_reduce : Args → Reduction V → Call V
  do_reduce : Args → Reduction V → ℕ → Call V
  do_broadcast : Args → ℕ → Call V
  do_gather : Args → ℕ → Call V
  do_scatter : Args → ℕ → Call V
  do_all_to_allv : Args → Call V
  p2p_op : P2pOp → Call V

-- The calls of the API. For `vcclAllToAllv`, whether each of the four tables is given.
pub data Request : Type 0 where
  all_gather all_to_all : Args → Request
  reduce_scatter all_reduce : Args → ℤ → Request
  reduce : Args → ℤ → ℤ → Request
  broadcast gather scatter : Args → ℤ → Request
  all_to_allv : Args → Bool → Bool → Bool → Bool → Request
  send recv : Args → ℤ → Request

abbrev pub null : ℕ → Bool
null p = p == 0

abbrev pub no_type : Args → Bool
no_type a = type_size a.datatype == 0

module _ {V : Type 0} where
  abbrev refuse : Result → Result × Option (Call V)
  refuse res = (res, none)

  -- The call is handed on, and its result is the answer.
  abbrev accept : (Call V → Result) → Call V → Result × Option (Call V)
  accept run c = (run c, some c)

  -- `root >= 0 && root < nranks`
  abbrev pub in_range : Comm V → ℤ → Bool
  in_range c (pos k) = ltb k c.nranks
  in_range c (negsuc k) = false

  -- `comm->rank == root`
  abbrev pub is_rank : Comm V → ℤ → Bool
  is_rank c (pos k) = c.rank == k
  is_rank c (negsuc k) = false

  -- `VCCLCHECK(resolveOp(...))` and the call with what it gives.
  unfoldable pub op_answer :
      (Call V → Result)
      → (Reduction V → Call V)
      → Result × Option (ℕ × Option V)
      → Result × Option (Call V)
  op_answer run k (success, some (op, s)) = accept run (k (record { op = op; premul = s }))
  op_answer run k (res, answer) = refuse res

  unfoldable pub with_op :
      (Call V → Result) → Comm V → Args → ℤ → (Reduction V → Call V) → Result × Option (Call V)
  unfolding op_answer
  with_op run c a op k = op_answer run k (resolve_op c.custom_ops a.datatype op)

  -- `VCCLCHECK(checkArgs(...))`, after `checkComm`.
  unfoldable pub with_args : Args → Result × Option (Call V) → Result × Option (Call V)
  with_args a k =
      if null a.sendbuff || null a.recvbuff
      then refuse invalid_argument
      else if no_type a
      then refuse invalid_argument
      else k

  -- The checks of a collective with a root: `buff` is needed on every rank, `at_root` at the root.
  unfoldable pub with_root :
      Comm V → Args → ℕ → ℕ → ℤ → Result × Option (Call V) → Result × Option (Call V)
  with_root c a buff at_root root k =
      if null buff || no_type a || not (in_range c root)
      then refuse invalid_argument
      else if is_rank c root && null at_root
      then refuse invalid_argument
      else k

  -- The checks of `vcclSend` and `vcclRecv`.
  unfoldable pub with_peer :
      Comm V → Args → ℕ → ℤ → Result × Option (Call V) → Result × Option (Call V)
  with_peer c a buff peer k =
      if null buff || no_type a || not (in_range c peer) || is_rank c peer
      then refuse invalid_argument
      else k

  -- The entry points, after `checkComm`; `run` is what `runOp` or `enqueueOrRunP2p` answers.
  unfoldable pub entry : (Call V → Result) → Comm V → Request → Result × Option (Call V)
  unfolding with_op with_args with_root with_peer
  entry run c (all_gather a) = with_args a (accept run (do_all_gather a))
  entry run c (all_to_all a) = with_args a (accept run (do_all_to_allv a))
  entry run c (reduce_scatter a op) = with_args a (with_op run c a op (do_reduce_scatter a))
  entry run c (all_reduce a op) = with_args a (with_op run c a op (do_all_reduce a))
  entry run c (reduce a op root) =
      with_root c a a.sendbuff a.recvbuff root (with_op run c a op (λ r. do_reduce a r (to_ℕ root)))
  entry run c (broadcast a root) =
      with_root c a a.recvbuff a.sendbuff root (accept run (do_broadcast a (to_ℕ root)))
  entry run c (gather a root) =
      with_root c a a.sendbuff a.recvbuff root (accept run (do_gather a (to_ℕ root)))
  entry run c (scatter a root) =
      with_root c a a.recvbuff a.sendbuff root (accept run (do_scatter a (to_ℕ root)))
  entry run c (all_to_allv a sc sd rc rd) =
      with_args a
        (if sc && sd && rc && rd then accept run (do_all_to_allv a) else refuse invalid_argument)
  entry run c (send a peer) = with_peer c a a.sendbuff peer (
      accept run (
        p2p_op (record {
          is_send = true;
          peer = to_ℕ peer;
          buf = a.sendbuff;
          bytes = a.count * type_size a.datatype;
        })))
  entry run c (recv a peer) = with_peer c a a.recvbuff peer (
      accept run (
        p2p_op (record {
          is_send = false;
          peer = to_ℕ peer;
          buf = a.recvbuff;
          bytes = a.count * type_size a.datatype;
        })))

  -- An entry point: the result so far, and the call if there is one.
  unfoldable pub request : (Call V → Result) → Option (Comm V) → Request → Result × Option (Call V)
  unfolding entry
  request run none r = refuse (check_comm none)
  request run (some c) r = elim (check_comm (some c.errors)) [
    | success ↦ entry run c r
    | res ↦ refuse res
  ]
