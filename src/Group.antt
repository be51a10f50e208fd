-- ===== src/Group.antt =====
-- src/core/group.cc: `vcclGroupStart`, `vcclGroupEnd`, `enqueueOrRun`, `enqueueOrRunP2p`,
-- `runCommOps`. A communicator is a number; the closure of a queued operation is a value of any
-- type, run by the parameters below.
pub mod Runs
pub mod Order
mod Tests
use vkccl.Prelude.{
  ℕ, zero, suc, ◌+◌, ◌-◌, ◌≡◌, Bool, true, false, not, List, [], ◌∷◌, ◌++◌, Option, none, some, ltb,
  ◌==◌, if◌then◌else◌, length, map,
}
use vkccl.Types.{Result, success, invalid_usage, is_success}

-- `P2pOp`: the buffer is an address.
pub record P2pOp : Type 0 where
  pub is_send : Bool
  pub peer : ℕ
  pub buf : ℕ
  pub bytes : ℕ

-- The part of `QueuedOp` that is run.
pub data Work (C : Type 0) : Type 0 where
  closure : C → Work C
  p2p : P2pOp → Work C

pub record QueuedOp (C : Type 0) : Type 0 where
  pub comm : ℕ
  pub work : Work C

-- `t_groupDepth` and `t_groupOps` of one thread.
pub record GroupState (C : Type 0) : Type 0 where
  pub depth : ℕ
  pub ops : List (QueuedOp C)

-- What running operations does to a communicator: its closures, its transport, its error state.
pub record Machine (C : Type 0) (S : Type 0) : Type 0 where
  pub run : C → S → Result × S
  pub has_transport : S → Bool
  pub batch : List P2pOp → S → Result × S
  pub send_recv : P2pOp → S → Result × S
  pub note_error : Result → S → S

module _ {C S : Type 0} (M : Machine C S) where
  open M use {run, has_transport, batch, send_recv, note_error}

  pub noting : Result × S → Result × S
  noting (success, s) = (success, s)
  noting (res, s) = (res, note_error res s)

  -- The inner `while`: the point-to-point operations at the head, and what follows them.
  pub span_p2p : List (Work C) → List P2pOp × List (Work C)
  span_p2p [] = ([], [])
  span_p2p (closure c ∷ ws) = ([], closure c ∷ ws)
  span_p2p (p2p op ∷ ws) = let (ops, rest) = span_p2p ws in (op ∷ ops, rest)

  -- `runCommOps`: a round runs one closure, or one batch of consecutive point-to-point operations.
  pub run_from : ℕ → List (Work C) → S → Result × S
  unfolding noting span_p2p
  run_from fuel [] s = (success, s)
  run_from zero (w ∷ ws) s = (success, s)
  run_from (suc fuel) (closure c ∷ ws) s =
      let (res, s') = noting (run c s) in
      let rest = run_from fuel ws s' in if is_success res then rest else (res, s')
  run_from (suc fuel) (p2p op ∷ ws) s =
      let (ops, after) = span_p2p ws in
      let (res, s') = noting (batch (op ∷ ops) s) in
      let rest = run_from fuel after s' in
      if not (has_transport s)
      then (invalid_usage, s)
      else if is_success res
      then rest
      else (res, s')

  -- A round takes at least one operation, so the length is fuel enough.
  pub run_comm_ops : List (Work C) → S → Result × S
  unfolding run_from
  run_comm_ops ws s = run_from (length ws) ws s

  -- `enqueueOrRun`
  abbrev pub enqueue_or_run : ℕ → C → GroupState C → S → Result × GroupState C × S
  enqueue_or_run comm c g s =
      if ltb 0 g.depth
      then (success, record g { ops = g.ops ++ record { comm = comm; work = closure c } ∷ [] }, s)
      else (let (res, s') = run c s in (res, g, s'))

  -- `enqueueOrRunP2p`
  abbrev pub enqueue_or_run_p2p : ℕ → P2pOp → GroupState C → S → Result × GroupState C × S
  enqueue_or_run_p2p comm op g s =
      if ltb 0 g.depth
      then (success, record g { ops = g.ops ++ record { comm = comm; work = p2p op } ∷ [] }, s)
      else if not (has_transport s)
      then (invalid_usage, g, s)
      else (let (res, s') = send_recv op s in (res, g, s'))

pub seen : ℕ → List ℕ → Bool
seen k [] = false
seen k (c ∷ cs) = if k == c then true else seen k cs

-- The first result that is not a success.
pub first_error : List Result → Result
first_error [] = success
first_error (r ∷ rs) = let rest = first_error rs in if is_success r then rest else r

-- What `vcclGroupEnd` hands to `runCommOps`: a communicator and its queue, for each thread.
abbrev pub Launch : Type 0 → Type 0
Launch C = ℕ × List (Work C)

module _ {C : Type 0} where
  -- `vcclGroupStart`
  abbrev pub group_start : GroupState C → Result × GroupState C
  group_start g = (success, record g { depth = g.depth + 1 })

  -- `order`: the communicators by their first operation, after those already seen.
  pub comm_order : List ℕ → List (QueuedOp C) → List ℕ
  comm_order known [] = []
  comm_order known (q ∷ qs) =
      let old = comm_order known qs in
      let new = q.comm ∷ comm_order (q.comm ∷ known) qs in if seen q.comm known then old else new

  -- `byComm[c]`
  pub queue_of : ℕ → List (QueuedOp C) → List (Work C)
  queue_of c [] = []
  queue_of c (q ∷ qs) = let rest = queue_of c qs in if q.comm == c then q.work ∷ rest else rest

  pub launches : List ℕ → List (QueuedOp C) → List (Launch C)
  launches [] qs = []
  launches (c ∷ cs) qs = (c, queue_of c qs) ∷ launches cs qs

  -- `vcclGroupEnd`: the result, the state, and the queues run, of which `outcome` says how each
  -- thread's `runCommOps` ends. With one communicator it runs on the calling thread.
  pub group_end : (Launch C → Result) → GroupState C → Result × GroupState C × List (Launch C)
  unfolding comm_order launches
  group_end outcome g =
      if g.depth == 0
      then (invalid_usage, g, [])
      else if ltb 0 (g.depth - 1)
      then (success, record g { depth = g.depth - 1 }, [])
      else (let runs = launches (comm_order [] g.ops) g.ops in
          (first_error (map outcome runs), record { depth = g.depth - 1; ops = [] }, runs))
