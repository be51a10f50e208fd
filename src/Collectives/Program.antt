-- ===== src/Collectives/Program.antt =====
-- src/core/collectives.cc: the rooted collectives run on each rank by itself, with the `send` and `recv`
-- of src/transport/transport.h. A rank's program is its copies, sends and receives in order; the
-- messages between two ranks arrive in the order in which they were sent. Buffers hold bytes.
use vkccl.Prelude.{ℕ, ◌+◌, Option, none, some, List, [], ◌∷◌, ◌==◌, if◌then◌else◌}
use vkccl.Net.{Mem, copy_to}

pub data Act : Type 0 where
  -- memcpy from the send buffer to the receive buffer: both offsets, and the length.
  copy : ℕ → ℕ → ℕ → Act
  -- `send(peer, sendbuff + at, len)` and `send(peer, recvbuff + at, len)`
  send forward : ℕ → ℕ → ℕ → Act
  -- `recv(peer, recvbuff + at, len)`
  recv : ℕ → ℕ → ℕ → Act

pub record Message (A : Type 0) : Type 0 where
  pub len : ℕ
  pub bytes : ℕ → A

-- What arrives from each peer, and what was sent, each with its peer.
abbrev pub Inbox : Type 0 → Type 0
Inbox A = ℕ → List (Message A)

abbrev pub Outbox : Type 0 → Type 0
Outbox A = List (ℕ × Message A)

module _ {A : Type 0} where
  abbrev pub with_rest : Inbox A → ℕ → List (Message A) → Inbox A
  with_rest inbox peer ms p = if p == peer then ms else inbox p

  -- The messages of an outbox for one rank.
  unfoldable pub addressed : ℕ → Outbox A → List (Message A)
  addressed r [] = []
  addressed r ((peer, m) ∷ out) = let rest = addressed r out in if peer == r then m ∷ rest else rest

  abbrev sending : ℕ → Message A → Option (Mem A × Outbox A) → Option (Mem A × Outbox A)
  sending peer m none = none
  sending peer m (some (buf, out)) = some (buf, (peer, m) ∷ out)

  -- Running a program on a send and a receive buffer: the receive buffer afterwards and what was
  -- sent, or `none` where a receive never gets its message or gets one of another length.
  unfoldable pub run : List Act → Inbox A → Mem A → Mem A → Option (Mem A × Outbox A)
  run [] inbox from into = some (into, [])
  run (copy a b len ∷ acts) inbox from into =
      run acts inbox from (copy_to into b len (λ i. from (a + i)))
  run (send peer at len ∷ acts) inbox from into =
      sending peer (record { len = len; bytes = λ i. from (at + i) }) (run acts inbox from into)
  run (forward peer at len ∷ acts) inbox from into =
      sending peer (record { len = len; bytes = λ i. into (at + i) }) (run acts inbox from into)
  run (recv peer at len ∷ acts) inbox from into = elim (inbox peer) [
    | [] ↦ none
    | m ∷ ms ↦
        if m.len == len
        then run acts (with_rest inbox peer ms) from (copy_to into at len m.bytes)
        else none
  ]
