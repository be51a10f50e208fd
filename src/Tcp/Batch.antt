-- ===== src/Tcp/Batch.antt =====
-- src/transport/tcp.cc: `TcpTransport::batch`. The map of queues is a function of a slot: slot
-- `2 * peer` has the receives from a peer, and the next one the sends to it, which is the order of
-- the map; a key that no operation has is an empty queue, which the loops skip as well. What the
-- system answers is an argument.
pub mod Delivery
use vkccl.Prelude.{
  ℕ, zero, suc, ◌+◌, ◌-◌, ◌*◌, min, Bool, true, false, not, ◌&&◌, ◌||◌, Option, none, some, List,
  [], ◌∷◌, ◌++◌, ltb, ◌==◌, if◌then◌else◌,
}
use vkccl.Group.{P2pOp}
use vkccl.Reduce.Loops.{update}
use vkccl.Socket.{End, done, error, waiting}

-- `Active`
pub record Active : Type 0 where
  pub buf : ℕ
  pub bytes : ℕ
  pub done : ℕ

abbrev pub Queues : Type 0
Queues = ℕ → List Active

-- What `send` or `recv` answers: at most `k + 1` bytes moved, nothing for now (EAGAIN, EINTR), the
-- end of the stream (`recv` alone), or a failure.
pub data Answer : Type 0 where
  advanced : ℕ → Answer
  blocked hung_up broken : Answer

-- Bytes that have gone through a slot: their address and their number.
pub record Piece : Type 0 where
  pub slot : ℕ
  pub addr : ℕ
  pub len : ℕ

-- The visit of one queue, or of all: what is left, `progressed`, the bytes moved in order, and how
-- many operations have ended.
pub record Visited (Q : Type 0) : Type 0 where
  pub left : Q
  pub progressed : Bool
  pub pieces : List Piece
  pub finished : ℕ

abbrev pub slot_of : P2pOp → ℕ
slot_of op = 2 * op.peer + (if op.is_send then 1 else 0)

-- `queues[...].push_back(...)` for each operation that has bytes, and `remaining`.
unfoldable pub fill : List P2pOp → Queues → ℕ → Queues × ℕ
fill [] qs remaining = (qs, remaining)
fill (op ∷ ops) qs remaining =
    let slot = slot_of op in
    let a : Active = record { buf = op.buf; bytes = op.bytes; done = 0 } in
    let rest = fill ops (update qs slot (qs slot ++ a ∷ [])) (remaining + 1) in
    let skip = fill ops qs remaining in if op.bytes == 0 then skip else rest

-- The body of `for (auto& entry : queues)`; `none` where it returns an error.
unfoldable pub visit : ℕ → Answer → List Active → Option (Visited (List Active))
visit slot answer [] = some (record { left = []; progressed = false; pieces = []; finished = 0 })
visit slot (advanced j) (a ∷ q) =
    let k = min (suc j) (a.bytes - a.done) in
    let piece : Piece = record { slot = slot; addr = a.buf + a.done; len = k } in
    if a.done + k == a.bytes
    then some (record { left = q; progressed = true; pieces = piece ∷ []; finished = 1 })
    else some (record {
      left = record a { done = a.done + k } ∷ q;
      progressed = true;
      pieces = piece ∷ [];
      finished = 0;
    })
visit slot blocked (a ∷ q) =
    some (record { left = a ∷ q; progressed = false; pieces = []; finished = 0 })
visit slot hung_up (a ∷ q) = none
visit slot broken (a ∷ q) = none

unfoldable pub and_then :
    ℕ
    → Queues
    → (Queues → Option (Visited Queues))
    → Option (Visited (List Active))
    → Option (Visited Queues)
and_then i qs next none = none
and_then i qs next (some v) = elim (next (update qs i v.left)) [
  | none ↦ none
  | some r ↦ some (record {
    left = r.left;
    progressed = v.progressed || r.progressed;
    pieces = v.pieces ++ r.pieces;
    finished = v.finished + r.finished;
  })
]

-- The loop over the queues, with the slots left.
unfoldable pub pass : (ℕ → Answer) → ℕ → ℕ → Queues → Option (Visited Queues)
pass answers i zero qs = some (record { left = qs; progressed = false; pieces = []; finished = 0 })
pass answers i (suc left) qs =
    and_then i qs (pass answers (i + 1) left) (visit i (answers i) (qs i))

-- One round of `while (remaining > 0)`: the answers, whether the transport is aborted, and for a
-- round without progress whether `poll` fails or the deadline has passed.
pub record Round : Type 0 where
  pub answers : ℕ → Answer
  pub aborted : Bool
  pub poll_failed : Bool
  pub expired : Bool

-- The loop for the slots of `nranks` peers; `waiting` where the rounds are used up.
unfoldable pub batch_loop : ℕ → List Round → Queues → ℕ → List Piece → End × List Piece
batch_loop nranks [] qs remaining log = (if ltb 0 remaining then waiting else done, log)
batch_loop nranks (t ∷ ts) qs remaining log =
    let go = λ (v : Visited Queues).
      batch_loop nranks ts v.left (remaining - v.finished) (log ++ v.pieces) in
    if ltb 0 remaining
    then elim (pass t.answers 0 (2 * nranks) qs) [
      | none ↦ (error, log)
      | some v ↦
          let rest = go v in
          if t.aborted
          then (error, log ++ v.pieces)
          else if not v.progressed && (t.poll_failed || t.expired)
          then (error, log ++ v.pieces)
          else rest
    ]
    else (done, log)

abbrev pub no_queues : Queues
no_queues slot = []

unfoldable pub tcp_batch : ℕ → List Round → List P2pOp → End × List Piece
tcp_batch nranks rounds ops =
    let (qs, remaining) = fill ops no_queues 0 in batch_loop nranks rounds qs remaining []
